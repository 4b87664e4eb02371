-- ===== src/AsyncLogging/Turns.antt =====
-- The turns of the backend thread of flute/common/AsyncLogging.cc, with appends between its two parts.
use flute.Prelude.{
  concat, ℕ, ◌+◌, ◌≤◌, ◌<◌, ◌≡◌, refl, ◌∙◌, ◌⊎◌, inl, inr, Option, none, some, List, [], ◌∷◌, ◌++◌,
  arith, length, length-append, take, max, length-take, ◌-◌, ltb, if◌then◌else◌, ◌>>=◌,
  append_assoc, Bool-cases, if_either, lt→ltb,
}
use flute.AsyncLogging.{
  AsyncLogging, Backend, append, avail, swap_buffers, write_buffers, drop_extra, refill1, refill2,
  pop_back,
}

-- The reserved buffer is empty, and where it was taken, a buffer is full.
abbrev pub IsStocked : AsyncLogging → Type 0
IsStocked a =
    (a.reserved_buffer ≡ some []) ⊎ ((a.reserved_buffer ≡ none) × (0 < length a.used_buffers))

-- The backend at the top of its loop, and between its two parts.
pub record IsReady (k : Backend) : Type 0 where
  pub first : k.new_buffer1 ≡ some []
  pub second : k.new_buffer2 ≡ some []
  pub nothing : k.buffers_to_write ≡ []

pub record IsLoaded (k : Backend) : Type 0 where
  pub taken : k.new_buffer1 ≡ none
  pub some_left : 0 < length k.buffers_to_write
  pub enough :
      (k.new_buffer2 ≡ some []) ⊎ ((k.new_buffer2 ≡ none) × (2 ≤ length k.buffers_to_write))

pub append-IsStocked :
    (logline : List ℕ) (a : AsyncLogging) → IsStocked a → IsStocked (append logline a)
unfolding append
append-IsStocked logline a s =
    if_either IsStocked (ltb (length logline) (avail a.cur_buffer)) _ _ (λ _. s)
      (λ _. inr (refl, omega (arith, length-append a.used_buffers (a.cur_buffer ∷ []))))

-- A stocked log and a ready backend: the swap passes its assertions, and leaves both in order.
abbrev pub Swapped : Option (AsyncLogging × Backend) → Type 0
Swapped r = (a' : AsyncLogging) × (k' : Backend) × (r ≡ some (a', k')) × IsStocked a' × IsLoaded k'

pub swap_buffers-Swapped :
    (a : AsyncLogging) (k : Backend) → IsStocked a → IsReady k → Swapped (swap_buffers a k)
unfolding swap_buffers
swap_buffers-Swapped a k (inl e) r =
    rw (swap_buffers, r.first, r.second, r.nothing, e)
      (
        _,
        _,
        refl,
        inl refl,
        record {
          taken = refl;
          some_left = omega (arith, length-append a.used_buffers (a.cur_buffer ∷ []));
          enough = inl r.second;
        },
      )
swap_buffers-Swapped a k (inr (e, full)) r =
    rw (swap_buffers, r.first, r.second, r.nothing, e)
      (
        _,
        _,
        refl,
        inl r.second,
        record {
          taken = refl;
          some_left = omega (arith, length-append a.used_buffers (a.cur_buffer ∷ []));
          enough =
              inr (refl, omega (arith, full, length-append a.used_buffers (a.cur_buffer ∷ [])));
        },
      )

-- Dropping leaves as many buffers as the refills need.
drop_extra-IsLoaded : (note : ℕ → List ℕ) (k : Backend) → IsLoaded k → IsLoaded (drop_extra note k)
unfolding drop_extra
drop_extra-IsLoaded note k l =
    if_either IsLoaded (ltb 2 (length k.buffers_to_write)) _ k
      (λ _. record {
        taken = l.taken;
        some_left = omega (arith, length-take 2 k.buffers_to_write, l.some_left);
        enough = elim l.enough [
          | inl e ↦ inl e
          | inr (e, two) ↦ inr (e, omega (arith, two, length-take 2 k.buffers_to_write))
        ];
      })
      (λ _. l)

length-pop_back : (xs : List (List ℕ)) → length (pop_back xs) + 1 ≡ max 1 (length xs)
length-pop_back [] = omega arith
length-pop_back (x ∷ []) = omega arith
length-pop_back (x ∷ y ∷ xs) = omega (arith, length-pop_back (y ∷ xs))

-- The two refills find the buffers they need.
refill2-runs :
    (k : Backend)
    → (k.new_buffer2 ≡ some []) ⊎ ((k.new_buffer2 ≡ none) × (0 < length k.buffers_to_write))
    → (k' : Backend) × (refill2 k ≡ some k')
      × (k'.new_buffer1 ≡ k.new_buffer1)
      × (k'.new_buffer2 ≡ some [])
      × (k'.output ≡ k.output)
unfolding refill2
refill2-runs k (inl e) = (k, simp (refill2, e), refl, e, refl)
refill2-runs k (inr (e, left)) = (
  record k { new_buffer2 = some []; buffers_to_write = pop_back k.buffers_to_write },
  rw (refill2, e, lt→ltb 0 (length k.buffers_to_write) left) refl,
  refl,
  refl,
  refl,
)

-- What a turn writes: all that was taken, or a note and the first two buffers.
abbrev pub written : (ℕ → List ℕ) → List (List ℕ) → List ℕ
written note buffers =
    if ltb 2 (length buffers)
    then note (length buffers - 2) ++ concat (take 2 buffers)
    else concat buffers

drop_extra-output :
    (note : ℕ → List ℕ) (k : Backend)
    → (drop_extra note k).output ++ concat (drop_extra note k).buffers_to_write
      ≡ k.output ++ written note k.buffers_to_write
unfolding drop_extra
drop_extra-output note k = elim (Bool-cases (ltb 2 (length k.buffers_to_write))) [
  | inl e ↦ rw (drop_extra, e) (append_assoc k.output _ _)
  | inr e ↦ rw (drop_extra, e) refl
]

abbrev pub Written : (ℕ → List ℕ) → Backend → Option Backend → Type 0
Written note k r =
    (k' : Backend) × (r ≡ some k')
    × IsReady k'
    × (k'.output ≡ k.output ++ written note k.buffers_to_write)

-- Behind the lock, a backend that took at least one buffer, and two where it gave its second one
-- away, passes all assertions: it writes what it took, or a note and the first two of more than two
-- buffers, and is ready for the next turn.
pub write_buffers-Written :
    (note : ℕ → List ℕ) (k : Backend) → IsLoaded k → Written note k (write_buffers note k)
unfolding write_buffers refill1
write_buffers-Written note k l =
    let l₁ = drop_extra-IsLoaded note k l in
    let k₁ = drop_extra note k in
    let k₂ = record k₁ {
      output = k₁.output ++ concat k₁.buffers_to_write;
      new_buffer1 = some [];
      buffers_to_write = pop_back k₁.buffers_to_write;
    } in
    let (k₃, run, first, second, out) = refill2-runs k₂ (elim l₁.enough [
      | inl e ↦ inl e
      | inr (e, two) ↦ inr (e, omega (arith, two, length-pop_back k₁.buffers_to_write))
    ]) in
    (
      record k₃ { buffers_to_write = [] },
      rw
          (
            write_buffers,
            lt→ltb 0 (length k.buffers_to_write) l.some_left,
            refill1,
            l₁.taken,
            lt→ltb 0 (length k₁.buffers_to_write) l₁.some_left,
            run,
          )
          refl,
      record { first = first; second = second; nothing = refl },
      out ∙ drop_extra-output note k,
    )

-- Lines that other threads log while the backend is at its loop.
abbrev pub append_all : List (List ℕ) → AsyncLogging → AsyncLogging
append_all [] a = a
append_all (line ∷ lines) a = append_all lines (append line a)

append_all-IsStocked :
    (lines : List (List ℕ)) (a : AsyncLogging) → IsStocked a → IsStocked (append_all lines a)
append_all-IsStocked [] a s = s
append_all-IsStocked (line ∷ lines) a s =
    append_all-IsStocked lines (append line a) (append-IsStocked line a s)

-- A run of the backend's loop: before each turn, and between its two parts, lines are logged.
unfoldable pub backend_loop :
    (ℕ → List ℕ)
    → List (List (List ℕ) × List (List ℕ))
    → AsyncLogging
    → Backend
    → Option (AsyncLogging × Backend)
backend_loop note [] a k = some (a, k)
backend_loop note ((before, between) ∷ turns) a k = do
  (a', k') ← swap_buffers (append_all before a) k
  k'' ← write_buffers note k'
  backend_loop note turns (append_all between a') k''

abbrev pub InOrder : Option (AsyncLogging × Backend) → Type 0
InOrder r = (a : AsyncLogging) × (k : Backend) × (r ≡ some (a, k)) × IsStocked a × IsReady k

-- However many lines are logged, of whatever length, before and during its turns, the backend's loop
-- never fails an assertion, and the two buffers that it keeps are there and empty at each turn.
pub backend_loop-InOrder :
    (note : ℕ → List ℕ) (turns : List (List (List ℕ) × List (List ℕ))) (a : AsyncLogging)
    (k : Backend)
    → IsStocked a
    → IsReady k
    → InOrder (backend_loop note turns a k)
unfolding backend_loop
backend_loop-InOrder note [] a k s r = (a, k, refl, s, r)
backend_loop-InOrder note ((before, between) ∷ turns) a k s r =
    let (a', k', run, s', l) =
      swap_buffers-Swapped (append_all before a) k (append_all-IsStocked before a s) r in
    let (k'', run', r', out) = write_buffers-Written note k' l in
    let (a₂, k₂, rest, s₂, r₂) =
      backend_loop-InOrder note turns (append_all between a') k''
        (append_all-IsStocked between a' s') r' in
    (a₂, k₂, rw (run, run') rest, s₂, r₂)
