-- ===== src/TaskDeque/Weights.antt =====
-- The tasks of flute/common/TaskDeque.cc by weight: two lists of tasks that weigh the same for every
-- weight have the same tasks.
use flute.Prelude.{
  ℕ, zero, suc, ◌+◌, ◌≤◌, ◌<◌, ◌≡◌, refl, Option, none, some, List, [], ◌∷◌, ◌++◌, ltb, ◌==◌,
  if◌then◌else◌, arith,
}
use flute.TaskDeque.{Worker, tests, takes, asleep, finished, runs, woken}

module _ {ℓ} {A : Type ℓ} where
  -- Each task has a weight, of whatever kind.
  module _ (f : A → ℕ) where
    abbrev pub weight : List A → ℕ
    weight [] = 0
    weight (a ∷ l) = f a + weight l

    abbrev pub weight? : Option A → ℕ
    weight? none = 0
    weight? (some a) = f a

    abbrev pub weights : List (Option A) → ℕ
    weights [] = 0
    weights (a ∷ l) = weight? a + weights l

    -- What a thread has in its hands.
    abbrev pub in_hand : Worker A → ℕ
    in_hand (runs task) = weight? task
    in_hand tests = 0
    in_hand takes = 0
    in_hand asleep = 0
    in_hand finished = 0

    abbrev pub in_hands : ℕ → (ℕ → Worker A) → ℕ
    in_hands zero worker = 0
    in_hands (suc n) worker = in_hand (worker n) + in_hands n worker

    pub weight-append : (l m : List A) → weight (l ++ m) ≡ weight l + weight m
    weight-append [] m = omega arith
    weight-append (a ∷ l) m = omega (arith, weight-append l m)

    pub weights-append : (l m : List (Option A)) → weights (l ++ m) ≡ weights l + weights m
    weights-append [] m = omega arith
    weights-append (a ∷ l) m = omega (arith, weights-append l m)

    in_hands-later :
        (n i : ℕ) (w : Worker A) (worker : ℕ → Worker A)
        → n ≤ i
        → in_hands n (λ j. if j == i then w else worker j) ≡ in_hands n worker
    in_hands-later zero i w worker h = refl
    in_hands-later (suc n) i w worker h = ground (arith, h, in_hands-later n i w worker)

    pub in_hands-set :
        (n i : ℕ) (w : Worker A) (worker : ℕ → Worker A)
        → i < n
        → in_hands n (λ j. if j == i then w else worker j) + in_hand (worker i)
          ≡ in_hands n worker + in_hand w
    in_hands-set zero i w worker h = absurd (omega (arith, h))
    in_hands-set (suc n) i w worker h =
        ground (arith, h, in_hands-set n i w worker, in_hands-later n i w worker)

    pub in_hands-tests : (n m : ℕ) → in_hands m (λ i. if ltb i n then tests else finished) ≡ 0
    in_hands-tests n zero = refl
    in_hands-tests n (suc m) = ground (arith, in_hands-tests n m)

    pub in_hands-finished :
        (n : ℕ) (worker : ℕ → Worker A) → ((i : ℕ) → worker i ≡ finished) → in_hands n worker ≡ 0
    in_hands-finished zero worker h = refl
    in_hands-finished (suc n) worker h = ground (arith, h n, in_hands-finished n worker h)

    in_hand-woken : (w : Worker A) → in_hand (woken w) ≡ in_hand w
    in_hand-woken w = ground arith

    pub in_hands-woken :
        (n : ℕ) (worker : ℕ → Worker A) → in_hands n (λ i. woken (worker i)) ≡ in_hands n worker
    in_hands-woken zero worker = refl
    in_hands-woken (suc n) worker = omega (arith, in_hand-woken (worker n), in_hands-woken n worker)
