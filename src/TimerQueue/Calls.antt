-- ===== src/TimerQueue/Calls.antt =====
-- The calls of add_timer and remove of flute/net/TimerQueue.cc, and runs of them.
use flute.Prelude.{
  ℕ, ◌+◌, ◌<◌, ◌≡◌, refl, ◌∙◌, inl, inr, Bool, true, false, not, ◌&&◌, ◌||◌, List, [], ◌∷◌, Option,
  none, some, All, arith, ◌==◌, Bool-cases, Option-cases,
}
use flute.TimerQueue.{
  Timer, TimerQueue, uintptr_max, put, with_entries, entry_of, is_earliest, same_sizes,
  cancel_in_reactor, without, Interval, add_timer, add_timer_in_reactor, Act, adds, removes,
  perform, perform_all, rearm, new_timer,
}
use flute.TimerQueue.Sets.{Entry, contains, set_insert}
use flute.TimerQueue.Armed.{ArmedFor, ArmedFor-erase, ArmedFor-rearm}
use flute.TimerQueue.Inv.{Inv, insert-Inv, without-Inv}

module _ {ℓ} {A : Type ℓ} where
  -- What a call leaves: the timers that wait stay where they are, and no callback is called.
  pub record Kept (w : ℕ → Bool) (q r : TimerQueue A) : Type ℓ where
    pub inv : Inv w r
    pub stays : (p : ℕ) → w p ≡ true → r.heap p ≡ q.heap p
    pub alarmed : r.alarmed ≡ q.alarmed
    pub armed : ArmedFor q.timer_fd q.timers_set → ArmedFor r.timer_fd r.timers_set

  -- The call returns.
  abbrev pub Keeps : (ℕ → Bool) → TimerQueue A → Option (TimerQueue A) → Type ℓ
  Keeps w q o = (r : TimerQueue A) × (o ≡ some r) × Kept w q r

  Kept-same : {w : ℕ → Bool} (q : TimerQueue A) → Inv w q → Kept w q q
  Kept-same q v = record { inv = v; stays = λ p h. refl; alarmed = refl; armed = λ a. a }

  -- The fields but the sets and the heap do not matter.
  pub Inv-same_timers :
      {w : ℕ → Bool} (q r : TimerQueue A)
      → r.timers_set ≡ q.timers_set
      → r.active_timers_set ≡ q.active_timers_set
      → r.heap ≡ q.heap
      → Inv w q
      → Inv w r
  Inv-same_timers q r e f g v = record {
    timers_sorted = rw e v.timers_sorted;
    active_sorted = rw f v.active_sorted;
    sizes = rw (e, f) v.sizes;
    timers = rw (e, g) v.timers;
    active = rw (f, g) v.active;
    waiting = rw g v.waiting;
    placed = rw g v.placed;
  }

  same_sizes-true : (q : TimerQueue A) (w : ℕ → Bool) → Inv w q → same_sizes q ≡ true
  same_sizes-true q w v = ground (arith, v.sizes)

  pub cancel-Keeps :
      (ptr i : ℕ) (q : TimerQueue A) (w : ℕ → Bool)
      → Inv w q
      → Keeps w q (cancel_in_reactor ptr i q)
  unfolding cancel_in_reactor
  cancel-Keeps ptr i q w v = elim (Bool-cases (contains timer q.active_timers_set)) [
    | inl c ↦ elim (Option-cases (q.heap ptr)) [
      | inl e ↦ absurd (ground (arith, v.active ptr i, c, e))
      | inr (x, e) ↦
          let free : w ptr ≡ false = ground (arith, v.active ptr i, c, e) in
          let id : x.global_timer_id ≡ i = ground (arith, v.active ptr i, c, e) in
          let there : contains (entry_of ptr x) q.timers_set ≡ true =
            v.timers x.time_expire ptr ∙ ground (arith, e, free) in
          let k = without-Inv ptr x i q w v e free id in
          (
            without ptr x timer q,
            rw (same_sizes-true q w v, c, e, there, same_sizes-true _ w k) refl,
            record {
              inv = k;
              stays = λ p h. ground (arith, h, free);
              alarmed = refl;
              armed = ArmedFor-erase q.timer_fd (entry_of ptr x) q.timers_set v.timers_sorted;
            },
          )
    ]
    | inr c ↦ elim (Bool-cases q.is_calling_expired_timers) [
      | inl e ↦
          let r = record q { canceling_timers = set_insert timer q.canceling_timers } in
          (
            r,
            rw (same_sizes-true q w v, c, e, same_sizes-true q w v) refl,
            record {
              inv = Inv-same_timers q r refl refl refl v;
              stays = λ p h. refl;
              alarmed = refl;
              armed = λ a. a;
            },
          )
      | inr e ↦ (q, rw (same_sizes-true q w v, c, e, same_sizes-true q w v) refl, Kept-same q v)
    ]
  ]
    where
      timer : Entry
      timer = record { first = ptr; second = i }

  -- A new timer waits until its task has run.
  pub allocated-Inv :
      (ptr : ℕ) (x : Timer A) (q : TimerQueue A) (w : ℕ → Bool)
      → Inv w q
      → q.heap ptr ≡ none
      → ptr < uintptr_max
      → 0 < x.time_expire
      → Inv
          (λ p. w p || (p == ptr))
          (record q { heap = put ptr (some x) q.heap; global_timer_count = x.global_timer_id })
  allocated-Inv ptr x q w v free small valid = record {
    timers_sorted = v.timers_sorted;
    active_sorted = v.active_sorted;
    sizes = v.sizes;
    timers = λ t p. ground (arith, v.timers t p, free);
    active = λ p i. ground (arith, v.active p i, free);
    waiting = λ p h. ground (arith, v.waiting p, h);
    placed = λ p. ground (arith, v.placed p, small, valid);
  }

  pub rearm-Inv :
      {w : ℕ → Bool} (when now : ℕ) (changed : Bool) (q : TimerQueue A)
      → Inv w q
      → Inv w (rearm when now (changed, q))
  rearm-Inv when now true q v = Inv-same_timers q _ refl refl refl v
  rearm-Inv when now false q v = v

  rearm-heap :
      (when now : ℕ) (changed : Bool) (q : TimerQueue A) (p : ℕ)
      → (rearm when now (changed, q)).heap p ≡ q.heap p
  rearm-heap when now true q p = refl
  rearm-heap when now false q p = refl

  rearm-alarmed :
      (when now : ℕ) (changed : Bool) (q : TimerQueue A)
      → (rearm when now (changed, q)).alarmed ≡ q.alarmed
  rearm-alarmed when now true q = refl
  rearm-alarmed when now false q = refl

  pub add_timer_in_reactor-Keeps :
      (ptr : ℕ) (x : Timer A) (now : ℕ) (q : TimerQueue A) (w w' : ℕ → Bool)
      → Inv w q
      → q.heap ptr ≡ some x
      → w ptr ≡ true
      → ((p : ℕ) → w' p ≡ (w p && not (p == ptr)))
      → Keeps w' q (add_timer_in_reactor ptr now q)
  unfolding add_timer_in_reactor
  add_timer_in_reactor-Keeps ptr x now q w w' v h waits rest =
      let (run, k) = insert-Inv ptr x q w w' v h waits rest in
      let changed = is_earliest x.time_expire q.timers_set in
      (
        _,
        rw (h, run) refl,
        record {
          inv = rearm-Inv x.time_expire now changed _ k;
          stays = λ p e. rearm-heap x.time_expire now changed _ p;
          alarmed = rearm-alarmed x.time_expire now changed _;
          armed = ArmedFor-rearm x.time_expire ptr now q.timers_set (with_entries ptr x q) refl;
        },
      )

  -- A time that is given is valid.
  abbrev pub IsValidAct : Act A → Type 0
  IsValidAct (adds cb when interval now) = 0 < when
  IsValidAct (removes ptr i) = Unit {0}

-- What `malloc` promises: an address in use is not given again, and the last one is not an address.
abbrev pub GivesFree {ℓ} : {A : Type ℓ} → ((ℕ → Option (Timer A)) → Option ℕ) → Type ℓ
GivesFree {A = A} malloc =
    (h : ℕ → Option (Timer A)) (p : ℕ) → malloc h ≡ some p → (h p ≡ none) × (p < uintptr_max)

module _ {ℓ} {A : Type ℓ} (malloc : (ℕ → Option (Timer A)) → Option ℕ)
    (free : GivesFree malloc) where
  pub add_timer-Keeps :
      (cb : A) (when : ℕ) (interval : Interval) (now : ℕ) (q : TimerQueue A) (w : ℕ → Bool)
      → Inv w q
      → 0 < when
      → Keeps w q (add_timer malloc cb when interval now q)
  unfolding add_timer
  add_timer-Keeps cb when interval now q w v valid = elim (Option-cases (malloc q.heap)) [
    | inl e ↦ (q, rw (add_timer, e) refl, Kept-same q v)
    | inr (ptr, e) ↦
        let (f, small) = free q.heap ptr e in
        let x = new_timer cb when interval (q.global_timer_count + 1) in
        let not_waiting : w ptr ≡ false = ground (arith, v.waiting ptr, f) in
        let (r, run, k) =
          add_timer_in_reactor-Keeps ptr x now
            (record q {
              heap = put ptr (some x) q.heap;
              global_timer_count = q.global_timer_count + 1;
            })
            (λ p. w p || (p == ptr)) w (allocated-Inv ptr x q w v f small valid) (ground arith)
            (ground arith) (λ p. ground (arith, not_waiting)) in
        (
          r,
          rw (add_timer, e) run,
          record {
            inv = k.inv;
            stays = λ p h. k.stays p h ∙ ground (arith, h, not_waiting);
            alarmed = k.alarmed;
            armed = k.armed;
          },
        )
  ]

  pub perform-Keeps :
      (act : Act A) (q : TimerQueue A) (w : ℕ → Bool)
      → IsValidAct act
      → Inv w q
      → Keeps w q (perform malloc act q)
  perform-Keeps (adds cb when interval now) q w a v = add_timer-Keeps cb when interval now q w v a
  perform-Keeps (removes ptr i) q w a v = cancel-Keeps ptr i q w v

  pub perform_all-Keeps :
      (acts : List (Act A)) (q : TimerQueue A) (w : ℕ → Bool)
      → All IsValidAct acts
      → Inv w q
      → Keeps w q (perform_all malloc acts q)
  perform_all-Keeps [] q w a v = (q, refl, Kept-same q v)
  perform_all-Keeps (act ∷ acts) q w (a, rest) v =
      let (r, e, k) = perform-Keeps act q w a v in
      let (s, f, m) = perform_all-Keeps acts r w rest k.inv in
      (
        s,
        rw e f,
        record {
          inv = m.inv;
          stays = λ p h. m.stays p h ∙ k.stays p h;
          alarmed = m.alarmed ∙ k.alarmed;
          armed = λ b. m.armed (k.armed b);
        },
      )
