-- ===== src/CountdownLatch/Waiters.antt =====
-- The threads that wait at a latch of flute/common/CountdownLatch.h.
use flute.Prelude.{
  ℕ, ◌≡◌, ◌≢◌, refl, true, false, ◌==◌, if_either, Bool-cases, inl, inr, List, [], ◌∷◌, ℤ, pos,
  ◌-ℤ◌, ltb_ℤ, eqb_ℤ, ◌<ℤ◌, ◌≤ℤ◌, -ℤ_parts, arith,
}
use flute.CountdownLatch.{
  Place, outside, asleep, woken, returned, CountdownLatch, new, put, test, wake, countdown, Event,
  waits, spuriously_wakes, goes_on, counts_down, if_asleep, if_woken, if_outside, perform,
}

-- A thread sleeps only while there is something to count, and has returned only where there is not.
pub record IsFair (l : CountdownLatch) : Type 0 where
  pub asleep : (t : ℕ) → l.place t ≡ asleep → pos 0 <ℤ l.count
  pub returned : (t : ℕ) → l.place t ≡ returned → l.count ≤ℤ pos 0

put-IsFair :
    (thread : ℕ) (place : Place) (l : CountdownLatch)
    → (place ≡ Place.asleep → pos 0 <ℤ l.count)
    → (place ≡ Place.returned → l.count ≤ℤ pos 0)
    → IsFair l
    → IsFair (put thread place l)
put-IsFair thread place l h k v = record {
  asleep = λ t.
      if_either (λ p. p ≡ Place.asleep → pos 0 <ℤ l.count) (t == thread) place (l.place t) (λ _. h)
        (λ _. v.asleep t);
  returned = λ t.
      if_either (λ p. p ≡ Place.returned → l.count ≤ℤ pos 0) (t == thread) place (l.place t)
        (λ _. k) (λ _. v.returned t);
}

test-IsFair : (thread : ℕ) (l : CountdownLatch) → IsFair l → IsFair (test thread l)
unfolding test
test-IsFair thread l v = elim (Bool-cases (ltb_ℤ (pos 0) l.count)) [
  | inl e ↦ rw e (
      put-IsFair thread Place.asleep l (λ _. ground (arith, e)) (λ h. absurd (ground (arith, h))) v)
  | inr e ↦ rw e (
      put-IsFair thread Place.returned l (λ h. absurd (ground (arith, h))) (λ _. ground (arith, e))
        v)
]

awake : (p : Place) → wake p ≢ Place.asleep
awake p h = ground (arith, h)

countdown-IsFair : (l : CountdownLatch) → IsFair l → IsFair (countdown l)
unfolding countdown
countdown-IsFair l v = elim (Bool-cases (eqb_ℤ (l.count -ℤ pos 1) (pos 0))) [
  | inl e ↦
      let zero : l.count -ℤ pos 1 ≤ℤ pos 0 = ground (arith, e) in
      rw e (record { asleep = λ t h. absurd (awake (l.place t) h); returned = λ t h. zero })
  | inr e ↦
      let more : pos 0 <ℤ l.count → pos 0 <ℤ l.count -ℤ pos 1 =
        λ h. ground (arith, e, h, -ℤ_parts l.count (pos 1)) in
      let less : l.count ≤ℤ pos 0 → l.count -ℤ pos 1 ≤ℤ pos 0 =
        λ h. omega (arith, h, -ℤ_parts l.count (pos 1)) in
      rw e (record { asleep = λ t h. more (v.asleep t h); returned = λ t h. less (v.returned t h) })
]

perform-IsFair : (e : Event) (l : CountdownLatch) → IsFair l → IsFair (perform e l)
unfolding perform
perform-IsFair (waits thread) l v = on_place (l.place thread)
  where
    on_place : (p : Place) → IsFair (if_outside thread p l)
    on_place outside = test-IsFair thread l v
    on_place asleep = v
    on_place woken = v
    on_place returned = v
perform-IsFair (spuriously_wakes thread) l v = on_place (l.place thread)
  where
    on_place : (p : Place) → IsFair (if_asleep thread p l)
    on_place outside = v
    on_place asleep =
        put-IsFair thread Place.woken l (λ h. absurd (ground (arith, h)))
          (λ h. absurd (ground (arith, h))) v
    on_place woken = v
    on_place returned = v
perform-IsFair (goes_on thread) l v = on_place (l.place thread)
  where
    on_place : (p : Place) → IsFair (if_woken thread p l)
    on_place outside = v
    on_place asleep = v
    on_place woken = test-IsFair thread l v
    on_place returned = v
perform-IsFair counts_down l v = countdown-IsFair l v

unfoldable pub run : List Event → CountdownLatch → CountdownLatch
run [] l = l
run (e ∷ es) l = run es (perform e l)

runs-IsFair : (es : List Event) (l : CountdownLatch) → IsFair l → IsFair (run es l)
unfolding run
runs-IsFair [] l v = v
runs-IsFair (e ∷ es) l v = runs-IsFair es (perform e l) (perform-IsFair e l v)

new-IsFair : (count : ℤ) → IsFair (new count)
unfolding new
new-IsFair count = record {
  asleep = λ t h. absurd (ground (arith, h));
  returned = λ t h. absurd (ground (arith, h));
}

goes_on-returned :
    (t : ℕ) (l : CountdownLatch)
    → l.count ≤ℤ pos 0
    → l.place t ≡ Place.woken
    → (perform (goes_on t) l).place t ≡ Place.returned
unfolding perform test
goes_on-returned t l h e =
    let done : ltb_ℤ (pos 0) l.count ≡ false = ground (arith, h) in
    let self : (t == t) ≡ true = ground arith in rw (e, done, self) refl

-- Whatever waits, wakes and countdowns there were, in whatever order: a thread has returned from
-- `wait` only if the count is at zero or below; and then no thread sleeps, so none has missed that it
-- was woken, and each one that was woken returns as it goes on.
pub run-wakes_all :
    (count : ℤ) (es : List Event) (t : ℕ)
    → ((run es (new count)).place t ≡ Place.returned → (run es (new count)).count ≤ℤ pos 0)
      × ((run es (new count)).count ≤ℤ pos 0
          → ((run es (new count)).place t ≢ Place.asleep)
            × ((run es (new count)).place t ≡ Place.woken
                → (perform (goes_on t) (run es (new count))).place t ≡ Place.returned))
run-wakes_all count es t =
    let v = runs-IsFair es (new count) (new-IsFair count) in
    (
      v.returned t,
      λ h. (λ e. omega (arith, h, v.asleep t e), λ e. goes_on-returned t (run es (new count)) h e),
    )
