-- ===== src/TimerQueue/Alarms.antt =====
-- When the timerfd of flute/net/TimerQueue.cc goes off: the timers due are called, and put back or
-- deleted.
use flute.Prelude.{
  ℕ, ◌<◌, ◌≡◌, refl, sym, ◌∙◌, inl, inr, Bool, true, false, List, [], ◌∷◌, ◌++◌, append-nil,
  append_assoc, Option, none, some, All, arith, ltb, if◌then◌else◌, Bool-cases, Option-cases,
}
use flute.TimerQueue.{
  Timer, TimerQueue, uintptr_max, sentry, reset, alarm_all, handle_timerfd_read, Act, read_timer_fd,
  arm_for_first, reset_timer_fd,
}
use flute.TimerQueue.Sets.{Entry, contains, before_bound, IsBefore, IsSorted}
use flute.TimerQueue.Armed.{ArmedFor}
use flute.TimerQueue.Inv.{Inv}
use flute.TimerQueue.Calls.{Inv-same_timers, IsValidAct, GivesFree, perform_all-Keeps}
use flute.TimerQueue.Expired.{waits_for, retrieve-Retrieved}
use flute.TimerQueue.Reset.{AllWait, waits_for-AllWait, Inv-waits, reset_all-Resets}

-- The timers whose time has come, in order.
abbrev pub due : ℕ → List Entry → List Entry
due now [] = []
due now (z ∷ s) = let rest = due now s in if ltb now z.first then rest else z ∷ rest

none_due :
    (now : ℕ) (z : Entry) (s : List Entry) → now < z.first → All (IsBefore z) s → due now s ≡ []
none_due now z [] h a = refl
none_due now z (y ∷ s) h (k, a) = ground (arith, h, k, none_due now z s h a)

abbrev IsSmall : Entry → Type 0
IsSmall e = e.second < uintptr_max

before_bound-due :
    (now : ℕ) (s : List Entry)
    → IsSorted s
    → All IsSmall s
    → before_bound (sentry now) s ≡ due now s
before_bound-due now [] o h = refl
before_bound-due now (z ∷ s) (a, o) (k, h) = elim (Bool-cases (ltb now z.first)) [
  | inl e ↦ ground (arith, e, none_due now z s (ground (arith, e)) a)
  | inr e ↦ ground (arith, e, k, before_bound-due now s o h)
]

module _ {ℓ} {A : Type ℓ} where
  -- The callbacks of the timers of the list.
  abbrev pub callback_of : Option (Timer A) → List A
  callback_of none = []
  callback_of (some x) = x.callback ∷ []

  abbrev pub callbacks : (ℕ → Option (Timer A)) → List Entry → List A
  callbacks heap [] = []
  callbacks heap (z ∷ l) = callback_of (heap z.second) ++ callbacks heap l

  callbacks-stay :
      (w : ℕ → Bool) (h k : ℕ → Option (Timer A)) (l : List Entry)
      → AllWait w l
      → ((p : ℕ) → w p ≡ true → k p ≡ h p)
      → callbacks k l ≡ callbacks h l
  callbacks-stay w h k [] a e = refl
  callbacks-stay w h k (z ∷ l) (f, a) e = rw (e z.second f, callbacks-stay w h k l a e) refl

  All-IsSmall :
      (w : ℕ → Bool) (q : TimerQueue A) (s : List Entry)
      → Inv w q
      → ((t p : ℕ)
          → contains (record { first = t; second = p }) s ≡ true
          → contains (record { first = t; second = p }) q.timers_set ≡ true)
      → All IsSmall s
  All-IsSmall w q [] v h = tt
  All-IsSmall w q (z ∷ s) v h = (
    ground (arith, v.timers z.first z.second, h z.first z.second (ground arith), v.placed z.second),
    All-IsSmall w q s v (λ t p c. h t p (ground (arith, c))),
  )

  pub expired-due :
      (now : ℕ) (w : ℕ → Bool) (q : TimerQueue A)
      → Inv w q
      → before_bound (sentry now) q.timers_set ≡ due now q.timers_set
  expired-due now w q v =
      before_bound-due now q.timers_set v.timers_sorted
        (All-IsSmall w q q.timers_set v (λ t p c. c))

  -- The timerfd is set for the first timer that is left.
  arm-ArmedFor :
      (s : List Entry) (clock : ℕ) (q : TimerQueue A)
      → Inv (λ p. false) q
      → q.timers_set ≡ s
      → (r : TimerQueue A) × (arm_for_first s clock q ≡ some r)
        × Inv (λ p. false) r
        × (r.alarmed ≡ q.alarmed)
        × ArmedFor r.timer_fd r.timers_set
  arm-ArmedFor [] clock q v e = (q, refl, v, refl, rw e tt)
  arm-ArmedFor (z ∷ s) clock q v e = elim (Option-cases (q.heap z.second)) [
    | inl f ↦ absurd (ground (arith, v.timers z.first z.second, e, f))
    | inr (x, f) ↦
        let valid : ltb 0 x.time_expire ≡ true = ground (arith, v.placed z.second, f) in
        let first : x.time_expire ≡ z.first = ground (arith, v.timers z.first z.second, e, f) in
        (
          reset_timer_fd x.time_expire clock q,
          rw (f, valid) refl,
          Inv-same_timers q _ refl refl refl v,
          refl,
          rw (e, first) (omega arith),
        )
  ]

  -- What is left when the timers due have been called.
  pub record Fired (now : ℕ) (q r : TimerQueue A) : Type ℓ where
    pub inv : Inv (λ p. false) r
    pub armed : ArmedFor r.timer_fd r.timers_set
    pub called : r.alarmed ≡ q.alarmed ++ callbacks q.heap (due now q.timers_set)

module _ {ℓ} {A : Type ℓ} (malloc : (ℕ → Option (Timer A)) → Option ℕ) (does : A → List (Act A))
    (free : GivesFree malloc) (valid : (cb : A) → All IsValidAct (does cb)) where
  alarm_all-Resets :
      (l : List Entry) (q : TimerQueue A) (w : ℕ → Bool)
      → Inv w q
      → AllWait w l
      → (r : TimerQueue A) × (alarm_all malloc does l q ≡ some r)
        × Inv w r
        × (r.alarmed ≡ q.alarmed ++ callbacks q.heap l)
  alarm_all-Resets [] q w v a = (q, refl, v, sym (append-nil q.alarmed))
  alarm_all-Resets (it ∷ l) q w v (h, a) = elim (Option-cases (q.heap it.second)) [
    | inl e ↦ absurd (ground (arith, v.waiting it.second h, e))
    | inr (x, e) ↦
        let called = record q { alarmed = q.alarmed ++ (x.callback ∷ []) } in
        let (r, f, k) =
          perform_all-Keeps malloc free (does x.callback) called w (valid x.callback)
            (Inv-same_timers q called refl refl refl v) in
        let (s, g, m, n) = alarm_all-Resets l r w k.inv a in
        (
          s,
          rw (e, f) g,
          m,
          n
              ∙ rw
                  (
                    k.alarmed,
                    callbacks-stay w q.heap r.heap l a k.stays,
                    e,
                    append_assoc q.alarmed (x.callback ∷ []) (callbacks q.heap l),
                  )
                  refl,
        )
  ]

  -- Where the sets and the heap agree, `malloc` gives no address in use, and the callbacks add timers
  -- of valid times only: when the timerfd goes off at a time over zero, no assertion fails, no deleted
  -- timer is used, the callbacks called are those of the timers due, each once and in their order, the
  -- sets and the heap agree again, and the timerfd is set for the first timer left or a time before.
  pub handle_timerfd_read-Fired :
      (now clock : ℕ) (q : TimerQueue A)
      → 0 < now
      → Inv (λ p. false) q
      → (r : TimerQueue A) × (handle_timerfd_read malloc does now clock q ≡ some r) × Fired now q r
  unfolding handle_timerfd_read reset
  handle_timerfd_read-Fired now clock q later v =
      let l = before_bound (sentry now) q.timers_set in
      let w = waits_for (λ p. false) l in
      let (r, k) =
        retrieve-Retrieved now (λ p. false) (read_timer_fd q)
          (Inv-same_timers q _ refl refl refl v) in
      let r' = record r { is_calling_expired_timers = true; canceling_timers = [] } in
      let (s, e, m, n) =
        alarm_all-Resets l r' w (Inv-same_timers r r' refl refl refl k.inv)
          (waits_for-AllWait (λ p. false) l) in
      let s' = record s { is_calling_expired_timers = false } in
      let (t, f, i, j) =
        reset_all-Resets l now s' w later (Inv-same_timers s s' refl refl refl m)
          (waits_for-AllWait (λ p. false) l) k.distinct in
      let (u, g, o, c, b) =
        arm-ArmedFor t.timers_set clock t (Inv-waits _ _ t (λ p. ground arith) i) refl in
      (
        u,
        rw (k.ends, e, f) g,
        record {
          inv = o;
          armed = b;
          called =
              c ∙ j ∙ n ∙ rw (k.same_alarmed, k.same_heap, expired-due now (λ p. false) q v) refl;
        },
      )
