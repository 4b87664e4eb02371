-- ===== src/TimerQueue/Armed.antt =====
-- The timerfd of flute/net/TimerQueue.cc is set for the first timer, or for a time before it.
use flute.Prelude.{
  ℕ, ◌+◌, ◌*◌, ◌-◌, ◌≤◌, ◌<◌, max, ◌≡◌, inl, inr, true, false, List, [], ◌∷◌, Option, none, some,
  All, arith, ltb, Bool-cases,
}
use flute.TimerQueue.{TimerQueue, Alarm, how_long_from_now, is_earliest, rearm}
use flute.TimerQueue.Sets.{Entry, less, same, set_insert, erase, IsBefore, IsSorted}

abbrev pub ArmedFor : Option Alarm → List Entry → Type 0
ArmedFor fd [] = Unit {0}
ArmedFor none (z ∷ s) = ⊥
ArmedFor (some a) (z ∷ s) = a.expiration ≤ z.first

ArmedFor-behind :
    (a : Alarm) (x z : Entry) (s : List Entry)
    → a.expiration ≤ z.first
    → All (IsBefore z) s
    → ArmedFor (some a) (erase x s)
ArmedFor-behind a x z [] h b = tt
ArmedFor-behind a x z (y ∷ s) h (k, b) = elim (Bool-cases (same x y)) [
  | inl e ↦ rw e (ArmedFor-behind a x z s h b)
  | inr e ↦ rw e (ground (arith, h, k))
]

pub ArmedFor-erase :
    (fd : Option Alarm) (x : Entry) (s : List Entry)
    → IsSorted s
    → ArmedFor fd s
    → ArmedFor fd (erase x s)
ArmedFor-erase fd x [] o h = tt
ArmedFor-erase none x (z ∷ s) o h = absurd h
ArmedFor-erase (some a) x (z ∷ s) (b, o) h = elim (Bool-cases (same x z)) [
  | inl e ↦ rw e (ArmedFor-behind a x z s h b)
  | inr e ↦ rw e h
]

module _ {ℓ} {A : Type ℓ} where
  pub ArmedFor-rearm :
      (when ptr now : ℕ) (s : List Entry) (q : TimerQueue A)
      → q.timers_set ≡ set_insert (record { first = when; second = ptr }) s
      → ArmedFor q.timer_fd s
      → ArmedFor
          (rearm when now (is_earliest when s, q)).timer_fd
          (rearm when now (is_earliest when s, q)).timers_set
  ArmedFor-rearm when ptr now [] q e h = rw e (omega arith)
  ArmedFor-rearm when ptr now (z ∷ s) q e h = elim (Bool-cases (ltb when z.first)) [
    | inl f ↦ rw (e, f) (omega arith)
    | inr f ↦ elim (Bool-cases (less x z)) [
      | inl g ↦ rw (f, e, g) (late q.timer_fd h f g)
      | inr g ↦ elim (Bool-cases (less z x)) [
        | inl k ↦ rw (f, e, g, k) (same_head q.timer_fd h (set_insert x s))
        | inr k ↦ rw (f, e, g, k) (same_head q.timer_fd h s)
      ]
    ]
  ]
    where
      x : Entry
      x = record { first = when; second = ptr }

      late :
          (fd : Option Alarm)
          → ArmedFor fd (z ∷ s)
          → ltb when z.first ≡ false
          → less x z ≡ true
          → ArmedFor fd (x ∷ (z ∷ s))
      late none h f g = h
      late (some a) h f g = ground (arith, h, f, g)

      same_head : (fd : Option Alarm) → ArmedFor fd (z ∷ s) → (t : List Entry) → ArmedFor fd (z ∷ t)
      same_head none h t = h
      same_head (some a) h t = h

-- The delay is the time from now on in nanoseconds, but a tenth of a millisecond at least, and its
-- nanoseconds are less than a second.
pub how_long_from_now-exact :
    (when now : ℕ)
    → ((how_long_from_now when now).tv_sec * 1000000000 + (how_long_from_now when now).tv_nsec
        ≡ max 100 (when - now) * 1000)
      × ((how_long_from_now when now).tv_nsec < 1000000000)
unfolding how_long_from_now
how_long_from_now-exact when now = ground arith
