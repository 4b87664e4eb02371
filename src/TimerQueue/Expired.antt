-- ===== src/TimerQueue/Expired.antt =====
-- The expired timers of flute/net/TimerQueue.cc: they leave both sets, and are put back or deleted.
use flute.Prelude.{
  ℕ, ◌+◌, ◌<◌, ◌≡◌, refl, ap, ◌∙◌, inl, inr, Bool, true, false, not, ◌&&◌, ◌||◌, List, [], ◌∷◌,
  Option, none, some, length, length-append, All, arith, ltb, ◌==◌, Option-cases,
}
use flute.TimerQueue.{
  Timer, TimerQueue, uintptr_max, active_of, erase_active, retrieve_expired_timers, sentry,
  is_later, same_sizes,
}
use flute.TimerQueue.Sets.{
  Entry, less, contains, erase, before_bound, from_bound, IsSorted, contains-erase, erase-IsSorted,
  length-erase,
}
use flute.TimerQueue.Split.{
  has_ptr, IsDistinct, before-from_bound, contains-before_bound, contains-from_bound,
  has_ptr-contains, before_bound-IsSorted, from_bound-IsSorted, IsSorted-IsDistinct,
}
use flute.TimerQueue.Inv.{Inv, has_id, has_time}

abbrev IsPart : List Entry → List Entry → Type 0
IsPart l s =
    (t p : ℕ)
    → contains (record { first = t; second = p }) l ≡ true
    → contains (record { first = t; second = p }) s ≡ true

before-sentry :
    (now t p : ℕ)
    → p < uintptr_max
    → less (record { first = t; second = p }) (sentry now) ≡ not (ltb now t)
before-sentry now t p h = ground (arith, h)

-- What is not in one part is in the other.
other_part : (b c d : Bool) → (b && c) ≡ (b && not d) → (b && not c) ≡ (b && d)
other_part b c d h = ground (arith, h)

-- The timers wait too that have expired.
abbrev pub waits_for : (ℕ → Bool) → List Entry → ℕ → Bool
waits_for w l p = w p || has_ptr p l

module _ {ℓ} {A : Type ℓ} where
  -- The timers of the list are live and in the other set.
  abbrev Listed : (ℕ → Option (Timer A)) → List Entry → Entry → Type ℓ
  Listed heap s e =
      (x : Timer A) × (heap e.second ≡ some x) × (contains (active_of e.second x) s ≡ true)

  Listed-erase :
      (heap : ℕ → Option (Timer A)) (s : List Entry) (ptr : ℕ) (x : Timer A) (l : List Entry)
      → has_ptr ptr l ≡ false
      → All (Listed heap s) l
      → All (Listed heap (erase (active_of ptr x) s)) l
  Listed-erase heap s ptr x [] d a = tt
  Listed-erase heap s ptr x (z ∷ l) d ((y, e, c), a) = (
    (y, e, contains-erase (active_of z.second y) (active_of ptr x) s ∙ ground (arith, c, d)),
    Listed-erase heap s ptr x l (ground (arith, d)) a,
  )

  -- What is left of the other set.
  record Erased (heap : ℕ → Option (Timer A)) (l s s' : List Entry) : Type ℓ where
    ends : erase_active heap l s ≡ some s'
    sorted : IsSorted s'
    size : length s ≡ length l + length s'
    rest :
        (p i : ℕ)
        → contains (record { first = p; second = i }) s' ≡ (
            contains (record { first = p; second = i }) s
            && not (has_ptr p l && has_id (heap p) false i))

  erase_active-Erased :
      (heap : ℕ → Option (Timer A)) (l s : List Entry)
      → IsSorted s
      → IsDistinct l
      → All (Listed heap s) l
      → (s' : List Entry) × Erased heap l s s'
  erase_active-Erased heap [] s o d a =
      (s, record { ends = refl; sorted = o; size = omega arith; rest = λ p i. ground arith })
  erase_active-Erased heap (z ∷ l) s o (d, ds) ((x, e, c), a) =
      let active = active_of z.second x in
      let (s', k) =
        erase_active-Erased heap l (erase active s) (erase-IsSorted active s o) ds
          (Listed-erase heap s z.second x l d a) in
      (
        s',
        record {
          ends = rw (e, c) k.ends;
          sorted = k.sorted;
          size = omega (arith, length-erase active s o c, k.size);
          rest = λ p i.
              k.rest p i
              ∙ ground (arith, contains-erase (record { first = p; second = i }) active s, e, d);
        },
      )

  -- The time of a timer.
  abbrev time_of : Option (Timer A) → ℕ
  time_of none = 0
  time_of (some x) = x.time_expire

  All-Listed :
      (w : ℕ → Bool) (q : TimerQueue A) (l : List Entry)
      → Inv w q
      → IsPart l q.timers_set
      → All (Listed q.heap q.active_timers_set) l
  All-Listed w q [] v h = tt
  All-Listed w q (z ∷ l) v h =
      let there = h z.first z.second (ground arith) in
      (
        elim (Option-cases (q.heap z.second)) [
          | inl e ↦ absurd (ground (arith, v.timers z.first z.second, there, e))
          | inr (x, e) ↦ (
            x,
            e,
            v.active z.second x.global_timer_id
                ∙ ground (arith, v.timers z.first z.second, there, e),
          )
        ],
        All-Listed w q l v (λ t p c. h t p (ground (arith, c))),
      )

  -- The set split at the sentry.
  record Split (now : ℕ) (w : ℕ → Bool) (q : TimerQueue A) (l later : List Entry) : Type ℓ where
    part : IsPart l q.timers_set
    ptr :
        (p : ℕ)
        → has_ptr p l
          ≡ (has_time (q.heap p) (w p) (time_of (q.heap p)) && not (ltb now (time_of (q.heap p))))
    kept :
        (t p : ℕ)
        → contains (record { first = t; second = p }) later
          ≡ (has_time (q.heap p) (w p) t && ltb now t)
    distinct : IsDistinct l

  expired_in-time :
      (now t p : ℕ) (w : ℕ → Bool) (q : TimerQueue A)
      → Inv w q
      → (has_time (q.heap p) (w p) t && less (record { first = t; second = p }) (sentry now))
        ≡ (has_time (q.heap p) (w p) t && not (ltb now t))
  expired_in-time now t p w q v = elim (Option-cases (q.heap p)) [
    | inl e ↦ rw e refl
    | inr (x, e) ↦
        ap (λ b. has_time (q.heap p) (w p) t && b) (before-sentry now t p (placed_small e))
  ]
    where
      placed_small : {x : Timer A} → q.heap p ≡ some x → p < uintptr_max
      placed_small e = ground (arith, v.placed p, e)

  sentry-Split :
      (now : ℕ) (w : ℕ → Bool) (q : TimerQueue A)
      → Inv w q
      → Split now w q
          (before_bound (sentry now) q.timers_set)
          (from_bound (sentry now) q.timers_set)
  sentry-Split now w q v = record {
    part = part;
    ptr = λ p.
        has_ptr-contains p (time_of (q.heap p)) l (λ u c. timed u p c)
        ∙ contains-before_bound _ (sentry now) q.timers_set v.timers_sorted
        ∙ ap (λ b. b && less (record { first = time_of (q.heap p); second = p }) (sentry now))
            (v.timers (time_of (q.heap p)) p)
        ∙ expired_in-time now (time_of (q.heap p)) p w q v;
    kept = λ t p.
        contains-from_bound _ (sentry now) q.timers_set v.timers_sorted
        ∙ ap (λ b. b && not (less (record { first = t; second = p }) (sentry now))) (v.timers t p)
        ∙ other_part _ _ _ (expired_in-time now t p w q v);
    distinct =
        IsSorted-IsDistinct (λ p. time_of (q.heap p)) l
          (before_bound-IsSorted (sentry now) q.timers_set v.timers_sorted) timed;
  }
    where
      l : List Entry
      l = before_bound (sentry now) q.timers_set

      part : IsPart l q.timers_set
      part t p c = ground (
        arith,
        contains-before_bound (record { first = t; second = p }) (sentry now) q.timers_set
            v.timers_sorted,
        c,
      )

      timed :
          (t p : ℕ) → contains (record { first = t; second = p }) l ≡ true → t ≡ time_of (q.heap p)
      timed t p c = ground (arith, part t p c, v.timers t p)

  later-is_later :
      (now : ℕ) (w : ℕ → Bool) (q : TimerQueue A) (l later : List Entry)
      → Split now w q l later
      → is_later now later ≡ true
  later-is_later now w q l [] k = refl
  later-is_later now w q l (z ∷ later) k = ground (arith, k.kept z.first z.second)

  -- The queue is left without the expired timers.
  pub record Retrieved (now : ℕ) (w : ℕ → Bool) (q r : TimerQueue A) : Type ℓ where
    pub ends : retrieve_expired_timers now q ≡ some (before_bound (sentry now) q.timers_set, r)
    pub inv : Inv (waits_for w (before_bound (sentry now) q.timers_set)) r
    pub distinct : IsDistinct (before_bound (sentry now) q.timers_set)
    pub same_heap : r.heap ≡ q.heap
    pub same_alarmed : r.alarmed ≡ q.alarmed

  pub retrieve-Retrieved :
      (now : ℕ) (w : ℕ → Bool) (q : TimerQueue A)
      → Inv w q
      → (r : TimerQueue A) × Retrieved now w q r
  unfolding retrieve_expired_timers
  retrieve-Retrieved now w q v =
      let l = before_bound (sentry now) q.timers_set in
      let later = from_bound (sentry now) q.timers_set in
      let k = sentry-Split now w q v in
      let (s', e) =
        erase_active-Erased q.heap l q.active_timers_set v.active_sorted k.distinct
          (All-Listed w q l v k.part) in
      let size : length later ≡ length s' = omega (
        arith,
        ap length (before-from_bound (sentry now) q.timers_set),
        length-append l later,
        e.size,
        v.sizes,
      ) in
      let same_before : same_sizes q ≡ true = ground (arith, v.sizes) in
      let same_after : (length later == length s') ≡ true = ground (arith, size) in
      (
        record q { timers_set = later; active_timers_set = s' },
        record {
          ends = rw (same_before, later-is_later now w q l later k, e.ends, same_after) refl;
          inv = record {
            timers_sorted = from_bound-IsSorted (sentry now) q.timers_set v.timers_sorted;
            active_sorted = e.sorted;
            sizes = size;
            timers = λ t p. k.kept t p ∙ ground (arith, k.ptr p);
            active = λ p i. e.rest p i ∙ ground (arith, v.active p i);
            waiting = λ p h. ground (arith, v.waiting p, k.ptr p, h);
            placed = v.placed;
          };
          distinct = k.distinct;
          same_heap = refl;
          same_alarmed = refl;
        },
      )
