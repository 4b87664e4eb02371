-- ===== src/Reactor/Line.antt =====
-- The line of tasks of flute/net/Reactor.cc, and what a callback does to it.
use flute.Prelude.{
  ℕ, ◌+◌, ◌<◌, ◌≡◌, refl, sym, ap, ◌∙◌, Bool, true, false, List, [], ◌∷◌, ◌++◌, arith, length,
  length-append, if_either, append_assoc, append-nil,
}
use flute.Reactor.{
  Reactor, Phase, in_poll, in_events, in_tasks, Act, queues, marks_quit, queue_in_reactor,
  mark_quit, perform, perform_all,
}

module _ {ℓ} {A : Type ℓ} where
  abbrev pub is_in_poll : Phase A → Bool
  is_in_poll in_poll = true
  is_in_poll _ = false

  abbrev pub is_in_events : Phase A → Bool
  is_in_events (in_events _) = true
  is_in_events _ = false

  abbrev pub is_in_tasks : Phase A → Bool
  is_in_tasks (in_tasks _) = true
  is_in_tasks _ = false

  abbrev pub left_tasks : Phase A → List A
  left_tasks (in_tasks tasks) = tasks
  left_tasks _ = []

  -- The tasks in the order in which they were queued: those that ran, those that are about to be
  -- run, and the pending ones.
  abbrev pub line : Reactor A → List A
  line r = r.ran ++ (left_tasks r.phase ++ r.pending_tasks)

  -- Wherever the thread of the reactor stands, but before the events, it notices the pending tasks:
  -- the eventfd is readable, or a thread is about to make it so, or the reactor's own thread did
  -- something outside of the loop since the poll last returned. In the poller's wait it notices, by
  -- the eventfd alone, that it is to quit.
  pub record IsAwake (r : Reactor A) (wakers early : ℕ) : Type 0 where
    pub tasks_noticed :
        is_in_events r.phase ≡ false
        → 0 < length r.pending_tasks
        → 0 < r.wakeup_count + wakers + early
    pub quit_noticed :
        is_in_poll r.phase ≡ true → r.going_to_quit ≡ true → 0 < r.wakeup_count + wakers
    pub calling : r.is_calling_pending_tasks ≡ is_in_tasks r.phase

  -- What the acts of a callback leave: its place in the loop, and what is noticed there.
  pub record SamePlace (r r' : Reactor A) : Type ℓ where
    pub phase : r'.phase ≡ r.phase
    pub calling : r'.is_calling_pending_tasks ≡ r.is_calling_pending_tasks
    pub ran : r'.ran ≡ r.ran
    pub added : List A
    pub pending : r'.pending_tasks ≡ r.pending_tasks ++ added
    pub counted : r.wakeup_count < r'.wakeup_count + 1
    pub noticed : r.is_calling_pending_tasks ≡ true → 0 < length added → 0 < r'.wakeup_count

  pub perform-SamePlace : (act : Act A) (r : Reactor A) → SamePlace r (perform act r)
  unfolding perform queue_in_reactor mark_quit
  perform-SamePlace (queues task) r =
      if_either (SamePlace r) r.is_calling_pending_tasks _ _
        (λ e. record {
          phase = refl;
          calling = refl;
          ran = refl;
          added = task ∷ [];
          pending = refl;
          counted = omega arith;
          noticed = λ _ _. omega arith;
        })
        (λ e. record {
          phase = refl;
          calling = refl;
          ran = refl;
          added = task ∷ [];
          pending = refl;
          counted = omega arith;
          noticed = λ e' _. absurd (ground (arith, e, e'));
        })
  perform-SamePlace marks_quit r = record {
    phase = refl;
    calling = refl;
    ran = refl;
    added = [];
    pending = sym (append-nil r.pending_tasks);
    counted = omega arith;
    noticed = λ _ n. absurd (omega (arith, n));
  }

  pub perform_all-SamePlace :
      (acts : List (Act A)) (r : Reactor A) → SamePlace r (perform_all acts r)
  unfolding perform_all
  perform_all-SamePlace [] r = record {
    phase = refl;
    calling = refl;
    ran = refl;
    added = [];
    pending = sym (append-nil r.pending_tasks);
    counted = omega arith;
    noticed = λ _ n. absurd (omega (arith, n));
  }
  perform_all-SamePlace (act ∷ acts) r =
      let h = perform-SamePlace act r in
      let k = perform_all-SamePlace acts (perform act r) in
      record {
        phase = k.phase ∙ h.phase;
        calling = k.calling ∙ h.calling;
        ran = k.ran ∙ h.ran;
        added = h.added ++ k.added;
        pending =
            k.pending
            ∙ ap (λ x. x ++ k.added) h.pending
            ∙ append_assoc r.pending_tasks h.added k.added;
        counted = omega (arith, h.counted, k.counted);
        noticed = λ e n. ground (
          arith,
          h.noticed e,
          k.noticed (h.calling ∙ e),
          k.counted,
          length-append h.added k.added,
          n,
        );
      }
