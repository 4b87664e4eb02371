-- ===== src/TcpServer/Pool.antt =====
-- The turns of the reactors of flute/net/ReactorThreadPool.cc.
use flute.Prelude.{
  ℕ, zero, suc, ◌+◌, ◌%◌, ◌<◌, ◌≡◌, ◌⊎◌, refl, ap, ◌∙◌, true, Option, some, List, [], ◌∷◌, arith,
  length, get_elem?, get_elem?-defined, ◌>>=◌, inr,
}
use native.Mathlib.Nat.{mod-lt, mod-add-mod, mod-eq_of_lt}
use flute.TcpServer.{ReactorThreadPool, new_pool, start_reactors, start_pool, get_next_reactor}

-- A pool that has started, with a next reactor.
pub record IsReady (p : ReactorThreadPool) : Type 0 where
  pub started : p.has_started ≡ true
  pub next : (p.reactors ≡ []) ⊎ (p.next_idx < length p.reactors)

next-IsReady :
    (p : ReactorThreadPool) (rs : List ℕ)
    → p.reactors ≡ rs
    → IsReady p
    → (r : ℕ) × (q : ReactorThreadPool) × (get_next_reactor p ≡ some (r, q)) × IsReady q
unfolding get_next_reactor
next-IsReady p [] e ready = (p.default_reactor, p, rw (ready.started, e) refl, ready)
next-IsReady p (r ∷ rs) e ready =
    let small : p.next_idx < length (r ∷ rs) = ground (arith, ready.next, e) in
    let (x, f) = get_elem?-defined (r ∷ rs) p.next_idx small in
    (
      x,
      record p { next_idx = (p.next_idx + 1) % length (r ∷ rs) },
      rw (ready.started, e, f) refl,
      record { started = ready.started; next = inr (rw e (mod-lt (p.next_idx + 1) (omega arith))) },
    )

pub get_next_reactor-IsReady :
    (p : ReactorThreadPool)
    → IsReady p
    → (r : ℕ) × (q : ReactorThreadPool) × (get_next_reactor p ≡ some (r, q)) × IsReady q
get_next_reactor-IsReady p ready = next-IsReady p p.reactors refl ready

-- The reactor of the call after `n` others.
abbrev pub first_of : ℕ × ReactorThreadPool → Option ℕ
first_of (r, p) = some r

abbrev pub after : ℕ → ReactorThreadPool → Option (ℕ × ReactorThreadPool)
after zero p = get_next_reactor p
after (suc n) p = get_next_reactor p >>= λ x. after n x.1

abbrev pub turn : ℕ → ReactorThreadPool → Option ℕ
turn n p = after n p >>= first_of

turn-from :
    (n : ℕ) (r : ℕ) (rs : List ℕ) (p : ReactorThreadPool)
    → p.has_started ≡ true
    → p.reactors ≡ r ∷ rs
    → p.next_idx < length (r ∷ rs)
    → turn n p ≡ get_elem? (r ∷ rs) ((p.next_idx + n) % length (r ∷ rs))
unfolding get_next_reactor
turn-from zero r rs p s e h =
    let (x, f) = get_elem?-defined (r ∷ rs) p.next_idx h in
    let small : (p.next_idx + 0) % length (r ∷ rs) ≡ p.next_idx =
      ap (λ i. i % length (r ∷ rs)) (omega arith) ∙ mod-eq_of_lt h in
    rw (s, e, f, small, f) refl
turn-from (suc n) r rs p s e h =
    let (x, f) = get_elem?-defined (r ∷ rs) p.next_idx h in
    let k = length (r ∷ rs) in
    let next : ReactorThreadPool = record p {
      has_started = true;
      reactors = r ∷ rs;
      next_idx = (p.next_idx + 1) % k;
    } in
    let same : ((p.next_idx + 1) % k + n) % k ≡ (p.next_idx + suc n) % k =
      mod-add-mod (p.next_idx + 1) k n ∙ ap (λ i. i % k) (omega arith) in
    rw (s, e, f)
      (turn-from n r rs next refl refl (mod-lt (p.next_idx + 1) (omega arith))
        ∙ ap (get_elem? (r ∷ rs)) same)

length-start_reactors : (f : ℕ → ℕ) (i n : ℕ) → length (start_reactors f i n) ≡ n
length-start_reactors f i zero = refl
length-start_reactors f i (suc n) = ap suc (length-start_reactors f (i + 1) n)

get_elem?-start_reactors :
    (f : ℕ → ℕ) (i n j : ℕ) → j < n → get_elem? (start_reactors f i n) j ≡ some (f (i + j))
get_elem?-start_reactors f i zero j h = absurd (omega (arith, h))
get_elem?-start_reactors f i (suc n) zero h = ap (λ k. some (f k)) (omega arith)
get_elem?-start_reactors f i (suc n) (suc j) h =
    get_elem?-start_reactors f (i + 1) n j (omega (arith, h)) ∙ ap (λ k. some (f k)) (omega arith)

zero_plus : (m : ℕ) → 0 + m ≡ m
zero_plus m = omega arith

-- A pool of one or more threads that has started gives its reactors in turn: call `n`, from zero on,
-- gives that of thread `n % size`.
pub turn-start_pool :
    (start_reactor : ℕ → ℕ) (reactor size n : ℕ)
    → 0 < size
    → (start_pool start_reactor (record (new_pool reactor) { size_pool = size }) >>= λ p. turn n p)
      ≡ some (start_reactor (n % size))
unfolding start_pool
turn-start_pool f reactor zero n h = absurd (omega (arith, h))
turn-start_pool f reactor (suc k) n h =
    let rs = start_reactors f 1 k in
    let p : ReactorThreadPool = record {
      default_reactor = reactor;
      has_started = true;
      size_pool = suc k;
      next_idx = 0;
      reactors = f 0 ∷ rs;
    } in
    let size : length (f 0 ∷ rs) ≡ suc k = ap suc (length-start_reactors f 1 k) in
    turn-from n (f 0) rs p refl refl (omega (arith, size))
    ∙ ap (λ m. get_elem? (f 0 ∷ rs) ((0 + n) % m)) size
    ∙ get_elem?-start_reactors f 0 (suc k) ((0 + n) % suc k) (mod-lt (0 + n) (omega arith))
    ∙ ap (λ i. some (f i)) (zero_plus ((0 + n) % suc k) ∙ ap (λ i. i % suc k) (zero_plus n))
