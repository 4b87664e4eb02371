-- ===== src/PollPoller/Active.antt =====
-- The active channels in flute/net/poller/PollPoller.cc.
use flute.Prelude.{
  ℕ, zero, suc, ◌≡◌, refl, ap, ◌∙◌, sym, true, ◌==◌, Option, none, some, Bool-cases, Option-cases,
  subst, inl, inr, List, [], ◌∷◌, All, All-imp, length, get_elem?, arith,
}
use flute.Channel.{Events}
use flute.PollPoller.{PollFd, PollPoller, set_revents, with_revents, register_active_channels, poll}
use flute.PollPoller.Inv.{Inv}

-- The descriptors that have events, and their events.
abbrev pub ready : List PollFd → List (ℕ × Events)
ready [] = []
ready (e ∷ es) = elim (e.revents) [ none ↦ ready es | some events ↦ (e.fd, events) ∷ ready es ]

-- A channel of the map knows its descriptor.
abbrev pub IsMapped : PollPoller → PollFd → Type 0
IsMapped p e = (ptr : ℕ) × (p.channel_map e.fd ≡ some ptr) × ((p.channels ptr).fd ≡ e.fd)

-- The channels of the descriptors, in their order, and each is told its events and nothing else.
pub data Told : List (ℕ × Events) → PollPoller → List ℕ → PollPoller → Type 0 where
  nothing : (p : PollPoller) → Told [] p [] p
  one :
      {fd : ℕ} {events : Events} {rest : List (ℕ × Events)} {p p' : PollPoller} {active : List ℕ}
      (ptr : ℕ)
      → p.channel_map fd ≡ some ptr
      → (p.channels ptr).fd ≡ fd
      → Told rest (set_revents ptr events p) active p'
      → Told ((fd, events) ∷ rest) p (ptr ∷ active) p'

kept_fd :
    (ptr : ℕ) (events : Events) (p : PollPoller) (q : ℕ)
    → ((set_revents ptr events p).channels q).fd ≡ (p.channels q).fd
kept_fd ptr events p q = elim (Bool-cases (ptr == q)) [
  | inl e ↦ rw e (ap (λ k. (p.channels k).fd) (ground (arith, e)))
  | inr e ↦ rw e refl
]

no_length : (xs : List (ℕ × Events)) → 0 ≡ length xs → [] ≡ xs
no_length [] h = refl
no_length (x ∷ xs) h = absurd (omega (arith, h))

skipped : (e : PollFd) (es : List PollFd) → e.revents ≡ none → ready (e ∷ es) ≡ ready es
skipped e es h = rw h refl

taken :
    (e : PollFd) (es : List PollFd) (events : Events)
    → e.revents ≡ some events
    → ready (e ∷ es) ≡ (e.fd, events) ∷ ready es
taken e es events h = rw h refl

skip_entry :
    (n : ℕ) (e : PollFd) (es : List PollFd) (p : PollPoller) {r : Option (List ℕ × PollPoller)}
    → e.revents ≡ none
    → register_active_channels (suc n) es p ≡ r
    → register_active_channels (suc n) (e ∷ es) p ≡ r
unfolding register_active_channels
skip_entry n e es p f run = rw f run

take_entry :
    (n ptr : ℕ) (e : PollFd) (es : List PollFd) (events : Events) (p p' : PollPoller)
    (active : List ℕ)
    → e.revents ≡ some events
    → p.channel_map e.fd ≡ some ptr
    → (p.channels ptr).fd ≡ e.fd
    → register_active_channels n es (set_revents ptr events p) ≡ some (active, p')
    → register_active_channels (suc n) (e ∷ es) p ≡ some (ptr ∷ active, p')
unfolding register_active_channels
take_entry n ptr e es events p p' active f mapped fd run =
    let same : ((p.channels ptr).fd == e.fd) ≡ true = ground (arith, fd) in
    rw (f, mapped, same, run) refl

register_active_channels-Told :
    (n : ℕ) (es : List PollFd) (p : PollPoller)
    → n ≡ length (ready es)
    → All (IsMapped p) es
    → (active : List ℕ) × (p' : PollPoller) × (register_active_channels n es p ≡ some (active, p'))
      × Told (ready es) p active p'
unfolding register_active_channels
register_active_channels-Told zero es p h a =
    ([], p, refl, subst (λ r. Told r p [] p) (no_length (ready es) h) (Told.nothing p))
register_active_channels-Told (suc n) [] p h a = absurd (omega (arith, h))
register_active_channels-Told (suc n) (e ∷ es) p h ((ptr, mapped, fd), a) =
    elim (Option-cases e.revents) [
      | inl f ↦
          let count : suc n ≡ length (ready es) = h ∙ ap length (skipped e es f) in
          let (active, p', run, told) = register_active_channels-Told (suc n) es p count a in
          (
            active,
            p',
            skip_entry n e es p f run,
            subst (λ r. Told r p active p') (sym (skipped e es f)) told,
          )
      | inr (events, f) ↦
          let count : suc n ≡ suc (length (ready es)) = h ∙ ap length (taken e es events f) in
          let (active, p', run, told) =
            register_active_channels-Told n es (set_revents ptr events p) (omega (arith, count))
              (All-imp es (λ d (q, m, k). (q, m, kept_fd ptr events p q ∙ k)) a) in
          (
            ptr ∷ active,
            p',
            take_entry n ptr e es events p p' active f mapped fd run,
            subst (λ r. Told r p (ptr ∷ active) p') (sym (taken e es events f))
                (Told.one ptr mapped fd told),
          )
    ]

-- Each entry belongs to a channel of the map, also after the kernel has written.
entries-IsMapped :
    (p : PollPoller) (es : List PollFd)
    → ((i : ℕ) (e : PollFd) → get_elem? es i ≡ some e → IsMapped p e)
    → All (IsMapped p) es
entries-IsMapped p [] h = tt
entries-IsMapped p (e ∷ es) h = (h 0 e refl, entries-IsMapped p es (λ i. h (suc i)))

with_revents-IsMapped :
    (p : PollPoller) (rs : List (Option Events)) (es : List PollFd)
    → All (IsMapped p) es
    → All (IsMapped p) (with_revents rs es)
with_revents-IsMapped p [] es a = a
with_revents-IsMapped p (r ∷ rs) [] a = tt
with_revents-IsMapped p (r ∷ rs) (e ∷ es) (m, a) = (m, with_revents-IsMapped p rs es a)

-- Where each entry belongs to a channel of the map, and `poll` tells the number of entries with
-- events, no assertion fails: the active channels are those of the entries with events, in their
-- order, and each is told just the events of its entry.
pub poll-Told :
    (p : PollPoller) (num_events : ℕ) (revents : List (Option Events))
    → Inv p
    → num_events ≡ length (ready (with_revents revents p.pollfds))
    → (active : List ℕ) × (p' : PollPoller) × (poll (some (num_events, revents)) p
        ≡ some (active, p'))
      × Told
          (ready (with_revents revents p.pollfds))
          (record p { pollfds = with_revents revents p.pollfds })
          active
          p'
unfolding poll
poll-Told p num_events revents v h =
    register_active_channels-Told num_events (with_revents revents p.pollfds)
      (record p { pollfds = with_revents revents p.pollfds }) h
      (with_revents-IsMapped (record p { pollfds = with_revents revents p.pollfds }) revents
        p.pollfds
        (entries-IsMapped (record p { pollfds = with_revents revents p.pollfds }) p.pollfds
          (λ i e k. let (ptr, pl) = v.entries i e k in (ptr, pl.mapped, pl.fd))))
