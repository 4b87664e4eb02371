-- ===== src/TimerQueue/Inv.antt =====
-- The two sets and the heap of flute/net/TimerQueue.cc hold the same timers; adding and removing one.
use flute.Prelude.{
  ℕ, suc, ◌<◌, ◌≡◌, refl, sym, ap, ◌∙◌, Bool, true, false, not, ◌&&◌, Option, none, some, length,
  arith, ◌==◌,
}
use flute.TimerQueue.{
  Timer, TimerQueue, uintptr_max, insert, with_entries, entry_of, active_of, is_earliest,
  same_sizes, without,
}
use flute.TimerQueue.Sets.{
  contains, IsSorted, contains-set_insert, set_insert-IsSorted, length-set_insert, contains-erase,
  erase-IsSorted, length-erase,
}

module _ {ℓ} {A : Type ℓ} where
  abbrev pub has_time : Option (Timer A) → Bool → ℕ → Bool
  has_time none waits t = false
  has_time (some x) waits t = (x.time_expire == t) && not waits

  abbrev pub has_id : Option (Timer A) → Bool → ℕ → Bool
  has_id none waits i = false
  has_id (some x) waits i = (x.global_timer_id == i) && not waits

  abbrev pub is_live : Option (Timer A) → Bool
  is_live none = false
  is_live (some x) = true

  abbrev pub IsPlaced : ℕ → Option (Timer A) → Type 0
  IsPlaced p none = Unit {0}
  IsPlaced p (some x) = (p < uintptr_max) × (0 < x.time_expire)

  -- The sets hold the live timers but those that wait elsewhere, to be called or put back.
  pub record Inv (waits : ℕ → Bool) (q : TimerQueue A) : Type ℓ where
    pub timers_sorted : IsSorted q.timers_set
    pub active_sorted : IsSorted q.active_timers_set
    pub sizes : length q.timers_set ≡ length q.active_timers_set
    pub timers :
        (t p : ℕ)
        → contains (record { first = t; second = p }) q.timers_set ≡ has_time (q.heap p) (waits p) t
    pub active :
        (p i : ℕ)
        → contains (record { first = p; second = i }) q.active_timers_set
          ≡ has_id (q.heap p) (waits p) i
    pub waiting : (p : ℕ) → waits p ≡ true → is_live (q.heap p) ≡ true
    pub placed : (p : ℕ) → IsPlaced p (q.heap p)

  pub insert-Inv :
      (ptr : ℕ) (x : Timer A) (q : TimerQueue A) (w w' : ℕ → Bool)
      → Inv w q
      → q.heap ptr ≡ some x
      → w ptr ≡ true
      → ((p : ℕ) → w' p ≡ (w p && not (p == ptr)))
      → (insert ptr q ≡ some (is_earliest x.time_expire q.timers_set, with_entries ptr x q))
        × Inv w' (with_entries ptr x q)
  unfolding insert
  insert-Inv ptr x q w w' v h waits rest =
      let fresh : contains (entry_of ptr x) q.timers_set ≡ false =
        v.timers x.time_expire ptr ∙ ground (arith, h, waits) in
      let fresh' : contains (active_of ptr x) q.active_timers_set ≡ false =
        v.active ptr x.global_timer_id ∙ ground (arith, h, waits) in
      let size = length-set_insert (entry_of ptr x) q.timers_set fresh in
      let size' = length-set_insert (active_of ptr x) q.active_timers_set fresh' in
      let before : same_sizes q ≡ true = ground (arith, v.sizes) in
      let after : same_sizes (with_entries ptr x q) ≡ true = ground (arith, v.sizes, size, size') in
      (
        rw (h, before, fresh, fresh', after) refl,
        record {
          timers_sorted = set_insert-IsSorted (entry_of ptr x) q.timers_set v.timers_sorted;
          active_sorted = set_insert-IsSorted (active_of ptr x) q.active_timers_set v.active_sorted;
          sizes = size ∙ ap suc v.sizes ∙ sym size';
          timers = λ t p.
              contains-set_insert (record { first = t; second = p }) (entry_of ptr x) q.timers_set
              ∙ ground (arith, v.timers t p, rest p, h, waits);
          active = λ p i.
              contains-set_insert (record { first = p; second = i }) (active_of ptr x)
                q.active_timers_set
              ∙ ground (arith, v.active p i, rest p, h, waits);
          waiting = λ p e. v.waiting p (ground (arith, rest p, e));
          placed = v.placed;
        },
      )

  pub without-Inv :
      (ptr : ℕ) (x : Timer A) (i : ℕ) (q : TimerQueue A) (w : ℕ → Bool)
      → Inv w q
      → q.heap ptr ≡ some x
      → w ptr ≡ false
      → x.global_timer_id ≡ i
      → Inv w (without ptr x (record { first = ptr; second = i }) q)
  without-Inv ptr x i q w v h free e =
      let there : contains (entry_of ptr x) q.timers_set ≡ true =
        v.timers x.time_expire ptr ∙ ground (arith, h, free) in
      let there' : contains (record { first = ptr; second = i }) q.active_timers_set ≡ true =
        v.active ptr i ∙ ground (arith, h, free, e) in
      let size = length-erase (entry_of ptr x) q.timers_set v.timers_sorted there in
      let size' =
        length-erase (record { first = ptr; second = i }) q.active_timers_set v.active_sorted
          there' in
      record {
        timers_sorted = erase-IsSorted (entry_of ptr x) q.timers_set v.timers_sorted;
        active_sorted =
            erase-IsSorted (record { first = ptr; second = i }) q.active_timers_set v.active_sorted;
        sizes = omega (arith, size, size', v.sizes);
        timers = λ t p.
            contains-erase (record { first = t; second = p }) (entry_of ptr x) q.timers_set
            ∙ ground (arith, v.timers t p, h, free);
        active = λ p j.
            contains-erase (record { first = p; second = j }) (record { first = ptr; second = i })
              q.active_timers_set
            ∙ ground (arith, v.active p j, h, free, e);
        waiting = λ p k. ground (arith, v.waiting p k, k, free);
        placed = λ p. ground (arith, v.placed p);
      }
