-- ===== src/Timezone/Lookup.antt =====
-- The lookup of flute/common/Timezone.cc by binary search, against a scan of all transitions.
use flute.Prelude.{
  ℕ, zero, suc, ◌≡◌, refl, ◌∙◌, inl, inr, Bool, true, false, if◌then◌else◌, Option, none, some,
  Bool-cases, Option-cases, List, [], ◌∷◌, get_elem?, All, ◌<ℤ◌, arith,
}
use flute.Timezone.{
  Transition, Localtime, TimeData, key, comp, equal, lower_bound, at_bound, find_local_time,
}

-- The transitions come in the strict order of their keys.
abbrev pub Ascending : Bool → List Transition → Type 0
Ascending c [] = Unit
Ascending c (t ∷ ts) = All (λ u. key c t <ℤ key c u) ts × Ascending c ts

-- The last transition in the list that is not after the sentry.
pub last_before : Bool → Transition → List Transition → Option Transition
last_before c sentry [] = none
last_before c sentry (t ∷ ts) = elim (last_before c sentry ts) [
  | some u ↦ some u
  | none ↦ if comp c sentry t then none else some t
]

-- What holds at the sentry: the local time of that transition, and the first one before all of them.
unfoldable pub local_time_at : TimeData → Transition → Bool → Option Localtime
local_time_at d sentry c = elim (last_before c sentry d.transitions) [
  | some t ↦ get_elem? (d.localtimes) (t.localtime_idx)
  | none ↦ get_elem? (d.localtimes) 0
]

All-last_before :
    (c : Bool) (sentry t : Transition) (ts : List Transition)
    → key c sentry <ℤ key c t
    → All (λ u. key c t <ℤ key c u) ts
    → last_before c sentry ts ≡ none
unfolding last_before
All-last_before c sentry t [] h a = refl
All-last_before c sentry t (u ∷ us) h (first, a) =
    rw (All-last_before c sentry t us h a) (ground (arith, h, first))

lower_bound-skip :
    (c : Bool) (sentry t : Transition) (ts : List Transition)
    → comp c t sentry ≡ true
    → lower_bound c sentry (t ∷ ts) ≡ suc (lower_bound c sentry ts)
unfolding lower_bound
lower_bound-skip c sentry t ts h = rw h refl

lower_bound-stop :
    (c : Bool) (sentry t : Transition) (ts : List Transition)
    → comp c t sentry ≡ false
    → lower_bound c sentry (t ∷ ts) ≡ 0
unfolding lower_bound
lower_bound-stop c sentry t ts h = rw h refl

at_bound-skip :
    (c : Bool) (sentry t u : Transition) (us : List Transition) (i : ℕ)
    → (i ≡ 0 → equal c sentry u ≡ true)
    → at_bound c sentry (t ∷ u ∷ us) (suc i) ≡ at_bound c sentry (u ∷ us) i
unfolding at_bound
at_bound-skip c sentry t u us zero h = rw (h refl) refl
at_bound-skip c sentry t u us (suc i) h = ground arith

last_before-found :
    (c : Bool) (sentry t : Transition) (ts : List Transition)
    → comp c sentry t ≡ false
    → (u : Transition) × (last_before c sentry (t ∷ ts) ≡ some u)
unfolding last_before
last_before-found c sentry t ts h = elim (Option-cases (last_before c sentry ts)) [
  | inl e ↦ (t, rw (e, h) refl)
  | inr (u, e) ↦ (u, rw e refl)
]

at_bound-single :
    (c : Bool) (sentry t : Transition)
    → comp c sentry t ≡ false
    → at_bound c sentry (t ∷ []) (lower_bound c sentry (t ∷ [])) ≡ some t
unfolding at_bound lower_bound
at_bound-single c sentry t h = ground (arith, h)

-- The first transition alone is not after the sentry.
at_bound-first :
    (c : Bool) (sentry t u : Transition) (us : List Transition)
    → comp c sentry t ≡ false
    → comp c sentry u ≡ true
    → at_bound c sentry (t ∷ u ∷ us) (lower_bound c sentry (t ∷ u ∷ us)) ≡ some t
unfolding at_bound lower_bound
at_bound-first c sentry t u us h k = ground (arith, h, k)

-- The second is not after the sentry either.
at_bound-next :
    (c : Bool) (sentry t u : Transition) (us : List Transition)
    → key c t <ℤ key c u
    → comp c sentry u ≡ false
    → at_bound c sentry (t ∷ u ∷ us) (lower_bound c sentry (t ∷ u ∷ us))
      ≡ at_bound c sentry (u ∷ us) (lower_bound c sentry (u ∷ us))
unfolding lower_bound
at_bound-next c sentry t u us t<u h =
    rw (lower_bound-skip c sentry t (u ∷ us) (ground (arith, t<u, h)))
      (at_bound-skip c sentry t u us (lower_bound c sentry (u ∷ us)) stops)
  where
    stops : lower_bound c sentry (u ∷ us) ≡ 0 → equal c sentry u ≡ true
    stops e = ground (arith, h, e)

-- The binary search and the scan choose the same transition.
at_bound-last_before :
    (c : Bool) (sentry t : Transition) (ts : List Transition)
    → Ascending c (t ∷ ts)
    → comp c sentry t ≡ false
    → at_bound c sentry (t ∷ ts) (lower_bound c sentry (t ∷ ts)) ≡ last_before c sentry (t ∷ ts)
unfolding last_before
at_bound-last_before c sentry t [] a h = at_bound-single c sentry t h ∙ rw h refl
at_bound-last_before c sentry t (u ∷ us) ((t<u, after), a) h = elim (Bool-cases (comp c sentry u)) [
  | inl e ↦
      at_bound-first c sentry t u us h e
      ∙ rw (All-last_before c sentry u us (ground (arith, e)) (a.0), e, h) refl
  | inr e ↦
      let (v, found) = last_before-found c sentry u us e in
      at_bound-next c sentry t u us t<u e
      ∙ at_bound-last_before c sentry u us a e
      ∙ found
      ∙ keep v found
]
  where
    keep :
        (v : Transition)
        → last_before c sentry (u ∷ us) ≡ some v
        → some v ≡ last_before c sentry (t ∷ u ∷ us)
    keep v found = rw found refl

before_all :
    (c : Bool) (sentry t : Transition) (ts : List Transition)
    → Ascending c (t ∷ ts)
    → comp c sentry t ≡ true
    → last_before c sentry (t ∷ ts) ≡ none
unfolding last_before
before_all c sentry t ts (after, a) h =
    rw (All-last_before c sentry t ts (ground (arith, h)) after, h) refl

nothing_before : (c : Bool) (sentry : Transition) → last_before c sentry [] ≡ none
unfolding last_before
nothing_before c sentry = refl

found_at :
    (d : TimeData) (sentry : Transition) (c : Bool) (ts : List Transition)
    → Ascending c ts
    → find_local_time (record d { transitions = ts }) sentry c
      ≡ local_time_at (record d { transitions = ts }) sentry c
unfolding find_local_time local_time_at
found_at d sentry c [] a = rw (local_time_at, nothing_before c sentry) refl
found_at d sentry c (t ∷ ts) a = elim (Bool-cases (comp c sentry t)) [
  | inl e ↦ rw (e, local_time_at, before_all c sentry t ts a e) refl
  | inr e ↦
      let (u, found) = last_before-found c sentry t ts e in
      rw (e, at_bound-last_before c sentry t ts a e, local_time_at, found) refl
]

-- In data whose transitions come in the strict order of the times that are compared, the local time
-- found by binary search is that of the last transition not after the sentry, and the first local
-- time where there is none.
pub find_local_time-local_time_at :
    (d : TimeData) (sentry : Transition) (c : Bool)
    → Ascending c (d.transitions)
    → find_local_time d sentry c ≡ local_time_at d sentry c
find_local_time-local_time_at d sentry c a = found_at d sentry c d.transitions a
