-- ===== src/TimerQueue/Reset.antt =====
-- The end of handle_timerfd_read of flute/net/TimerQueue.cc: the expired timers are put back or deleted.
use flute.Prelude.{
  fun_ext, ℕ, ◌<◌, ◌≡◌, refl, ◌∙◌, inl, inr, Bool, true, false, not, ◌&&◌, List, [], ◌∷◌, Option,
  none, some, All, arith, ◌==◌, Bool-cases, Option-cases,
}
use flute.TimerQueue.{
  Timer, TimerQueue, put, with_entries, active_of, reset_one, reset_all, restart,
}
use flute.TimerQueue.Sets.{Entry, contains}
use flute.TimerQueue.Split.{has_ptr, IsDistinct}
use flute.TimerQueue.Inv.{Inv, insert-Inv}
use flute.TimerQueue.Expired.{waits_for}

-- The timers of the list wait.
abbrev pub AllWait : (ℕ → Bool) → List Entry → Type 0
AllWait w l = All (λ e. w e.second ≡ true) l

AllWait-others :
    (w : ℕ → Bool) (ptr : ℕ) (l : List Entry)
    → has_ptr ptr l ≡ false
    → AllWait w l
    → AllWait (λ p. w p && not (p == ptr)) l
AllWait-others w ptr [] d a = tt
AllWait-others w ptr (z ∷ l) d (h, a) =
    (ground (arith, d, h), AllWait-others w ptr l (ground (arith, d)) a)

All-waits_for :
    (w : ℕ → Bool) (l m : List Entry)
    → ((p : ℕ) → has_ptr p m ≡ true → has_ptr p l ≡ true)
    → AllWait (waits_for w l) m
All-waits_for w l [] h = tt
All-waits_for w l (z ∷ m) h =
    (ground (arith, h z.second), All-waits_for w l m (λ p e. h p (ground (arith, e))))

-- The timers of the list wait, in `waits_for`.
pub waits_for-AllWait : (w : ℕ → Bool) (l : List Entry) → AllWait (waits_for w l) l
waits_for-AllWait w l = All-waits_for w l l (λ p e. e)

module _ {ℓ} {A : Type ℓ} where
  -- A timer is restarted, or deleted; it waits no longer.
  released-Inv :
      (ptr : ℕ) (q : TimerQueue A) (w : ℕ → Bool)
      → Inv w q
      → w ptr ≡ true
      → Inv (λ p. w p && not (p == ptr)) (record q { heap = put ptr none q.heap })
  released-Inv ptr q w v h = record {
    timers_sorted = v.timers_sorted;
    active_sorted = v.active_sorted;
    sizes = v.sizes;
    timers = λ t p. ground (arith, v.timers t p, h);
    active = λ p i. ground (arith, v.active p i, h);
    waiting = λ p k. ground (arith, v.waiting p, k);
    placed = λ p. ground (arith, v.placed p);
  }

  restarted-Inv :
      (ptr : ℕ) (x y : Timer A) (q : TimerQueue A) (w : ℕ → Bool)
      → Inv w q
      → q.heap ptr ≡ some x
      → w ptr ≡ true
      → 0 < y.time_expire
      → Inv w (record q { heap = put ptr (some y) q.heap })
  restarted-Inv ptr x y q w v h waits valid = record {
    timers_sorted = v.timers_sorted;
    active_sorted = v.active_sorted;
    sizes = v.sizes;
    timers = λ t p. ground (arith, v.timers t p, waits);
    active = λ p i. ground (arith, v.active p i, waits);
    waiting = λ p k. ground (arith, v.waiting p, k);
    placed = λ p. ground (arith, v.placed p, valid, h, v.placed ptr);
  }

  abbrev pub Resets : (ℕ → Bool) → TimerQueue A → Option (TimerQueue A) → Type ℓ
  Resets w q o = (r : TimerQueue A) × (o ≡ some r) × Inv w r × (r.alarmed ≡ q.alarmed)

  restart-valid :
      (now : ℕ) (x : Timer A) → 0 < now → x.is_repeated ≡ true → 0 < (restart now x).time_expire
  unfolding restart
  restart-valid now x h e = rw e (omega (arith, h))

  reset_one-Resets :
      (it : Entry) (now : ℕ) (q : TimerQueue A) (w : ℕ → Bool)
      → 0 < now
      → Inv w q
      → w it.second ≡ true
      → Resets (λ p. w p && not (p == it.second)) q (reset_one it now q)
  unfolding reset_one
  reset_one-Resets it now q w later v h = elim (Option-cases (q.heap it.second)) [
    | inl e ↦ absurd (ground (arith, v.waiting it.second h, e))
    | inr (x, e) ↦
        elim (Bool-cases
          (x.is_repeated && not (contains (active_of it.second x) q.canceling_timers))) [
            | inl f ↦
                let y = restart now x in
                let q' = record q { heap = put it.second (some y) q.heap } in
                let valid : 0 < y.time_expire = restart-valid now x later (ground (arith, f)) in
                let (run, k) =
                  insert-Inv it.second y q' w (λ p. w p && not (p == it.second))
                    (restarted-Inv it.second x y q w v e h valid) (ground arith) h (λ p. refl) in
                (with_entries it.second y q', rw (e, f, run) refl, k, refl)
            | inr f ↦ (
              record q { heap = put it.second none q.heap },
              rw (e, f) refl,
              released-Inv it.second q w v h,
              refl,
            )
          ]
  ]

  pub Inv-waits : (w w' : ℕ → Bool) (q : TimerQueue A) → ((p : ℕ) → w' p ≡ w p) → Inv w q → Inv w' q
  Inv-waits w w' q e v = rw (fun_ext e) v

  pub reset_all-Resets :
      (l : List Entry) (now : ℕ) (q : TimerQueue A) (w : ℕ → Bool)
      → 0 < now
      → Inv w q
      → AllWait w l
      → IsDistinct l
      → Resets (λ p. w p && not (has_ptr p l)) q (reset_all l now q)
  reset_all-Resets [] now q w later v a d = (q, refl, Inv-waits w _ q (λ p. ground arith) v, refl)
  reset_all-Resets (it ∷ l) now q w later v (h, a) (d, ds) =
      let (r, e, k, f) = reset_one-Resets it now q w later v h in
      let (s, g, m, n) = reset_all-Resets l now r _ later k (AllWait-others w it.second l d a) ds in
      (s, rw e g, Inv-waits _ _ s (λ p. ground arith) m, n ∙ f)
