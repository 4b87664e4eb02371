-- ===== src/PollPoller/Inv.antt =====
-- The entries and the indices of flute/net/poller/PollPoller.cc, as they belong together.
use flute.Prelude.{ℕ, ◌+◌, ◌≡◌, ◌≢◌, sym, ap, ◌∙◌, none, some, length, get_elem?}
use mathlib.Core.Option.{some-injective}
use flute.PollPoller.{PollFd, PollPoller}

-- The entry at `i` is that of the channel at `ptr`, and both know it.
pub record Placed (p : PollPoller) (i : ℕ) (e : PollFd) (ptr : ℕ) : Type 0 where
  pub at : get_elem? p.pollfds i ≡ some e
  pub mapped : p.channel_map e.fd ≡ some ptr
  pub fd : (p.channels ptr).fd ≡ e.fd
  pub idx : (p.channels ptr).idx ≡ some i

-- Each entry has a channel, and each channel of the map an entry.
pub record Inv (p : PollPoller) : Type 0 where
  pub entries : (i : ℕ) (e : PollFd) → get_elem? p.pollfds i ≡ some e → (ptr : ℕ) × Placed p i e ptr
  pub mapped :
      (fd ptr : ℕ)
      → p.channel_map fd ≡ some ptr
      → (i : ℕ) × (e : PollFd) × (e.fd ≡ fd) × Placed p i e ptr

-- One descriptor, one place.
pub same_place :
    (p : PollPoller) (i j : ℕ) (e f : PollFd) (q r : ℕ)
    → Placed p i e q
    → Placed p j f r
    → e.fd ≡ f.fd
    → i ≡ j
same_place p i j e f q r a b h =
    let same : q ≡ r = some-injective q r (sym a.mapped ∙ ap p.channel_map h ∙ b.mapped) in
    some-injective i j (sym a.idx ∙ ap (λ x. (p.channels x).idx) same ∙ b.idx)

-- What a removal has done.
pub record Erased (p : PollPoller) (fd : ℕ) (p' : PollPoller) : Type 0 where
  pub inv : Inv p'
  pub gone : p'.channel_map fd ≡ none
  pub others : (fd' : ℕ) → fd' ≢ fd → p'.channel_map fd' ≡ p.channel_map fd'
  pub one_less : length p'.pollfds + 1 ≡ length p.pollfds
