-- ===== src/Reactor/Turn.antt =====
-- One step of the loop of flute/net/Reactor.cc in its own thread.
use flute.Prelude.{
  ℕ, ◌+◌, ◌<◌, ◌≡◌, refl, sym, ap, ◌∙◌, false, List, [], ◌∷◌, ◌++◌, arith, length, length-append,
  if_either, append_assoc, append-nil,
}
use flute.Reactor.{
  Reactor, Phase, outside, in_poll, in_events, in_tasks, Active, wakeup_channel, channel, Act,
  perform_all, next_turn, swap_tasks, end_of_tasks, advance_at,
}
use flute.Reactor.Threads.{early_after}
use flute.Reactor.Line.{
  is_in_poll, is_in_events, is_in_tasks, left_tasks, line, IsAwake, perform_all-SamePlace,
}

module _ {ℓ} {A : Type ℓ} where
  -- A step of the reactor's thread leaves the count at least at what a waker needs, and the line of
  -- tasks is only added to at its end.
  pub record Follows (wakers early : ℕ) (r r' : Reactor A) : Type ℓ where
    pub awake : IsAwake r' wakers early
    pub added : List A
    pub order : line r' ≡ line r ++ added

  in_events-Follows :
      (wakers early : ℕ) (rest : List (Active A)) (r : Reactor A) (acts : List (Act A))
      → r.is_calling_pending_tasks ≡ false
      → left_tasks r.phase ≡ []
      → Follows wakers early r (perform_all acts (record r { phase = in_events rest }))
  in_events-Follows wakers early rest r acts c l =
      let k = perform_all-SamePlace acts (record r { phase = in_events rest }) in
      record {
        awake = record {
          tasks_noticed = λ e n. absurd (ground (arith, e, ap is_in_events k.phase));
          quit_noticed = λ e n. absurd (ground (arith, e, ap is_in_poll k.phase));
          calling = rw k.phase (k.calling ∙ c);
        };
        added = k.added;
        order =
            rw (k.phase, k.ran, k.pending, l) (sym (append_assoc r.ran r.pending_tasks k.added));
      }

  in_tasks-Follows :
      (wakers early : ℕ) (task : A) (rest : List A) (r : Reactor A) (acts : List (Act A))
      → IsAwake r wakers early
      → r.phase ≡ in_tasks (task ∷ rest)
      → Follows wakers early r
          (perform_all acts (record r { phase = in_tasks rest; ran = r.ran ++ (task ∷ []) }))
  in_tasks-Follows wakers early task rest r acts a p =
      let r₁ = record r { phase = in_tasks rest; ran = r.ran ++ (task ∷ []) } in
      let k = perform_all-SamePlace acts r₁ in
      record {
        awake = record {
          tasks_noticed = λ e n. ground (
            arith,
            a.tasks_noticed (ap is_in_events p),
            k.noticed (a.calling ∙ ap is_in_tasks p),
            k.counted,
            ap length k.pending,
            length-append r.pending_tasks k.added,
            n,
          );
          quit_noticed = λ e n. absurd (ground (arith, e, ap is_in_poll k.phase));
          calling = rw k.phase (k.calling ∙ a.calling ∙ ap is_in_tasks p);
        };
        added = k.added;
        order = rw (k.phase, k.ran, k.pending, p) (simp append_assoc);
      }

  swap_tasks-Follows :
      (wakers early : ℕ) (r : Reactor A)
      → left_tasks r.phase ≡ []
      → Follows wakers early r (swap_tasks r)
  unfolding swap_tasks
  swap_tasks-Follows wakers early r l = record {
    awake = record {
      tasks_noticed = λ e n. absurd (omega (arith, n));
      quit_noticed = λ e n. absurd (ground (arith, e));
      calling = refl;
    };
    added = [];
    order = rw l (simp append-nil);
  }

  -- The head of the loop, where it is not before the events.
  next_turn-Follows :
      (wakers early : ℕ) (r : Reactor A)
      → (0 < length r.pending_tasks → 0 < r.wakeup_count + wakers + early)
      → r.is_calling_pending_tasks ≡ false
      → left_tasks r.phase ≡ []
      → Follows wakers early r (next_turn r)
  next_turn-Follows wakers early r noticed c l =
      if_either (Follows wakers early r) r.going_to_quit _ _
        (λ q. record {
          awake = record {
            tasks_noticed = λ e n. noticed n;
            quit_noticed = λ e n. absurd (ground (arith, e));
            calling = c;
          };
          added = [];
          order = rw l (simp append-nil);
        })
        (λ q. record {
          awake = record {
            tasks_noticed = λ e n. noticed n;
            quit_noticed = λ e n. absurd (ground (arith, q, n));
            calling = c;
          };
          added = [];
          order = rw l (simp append-nil);
        })

  pub advance_at-Follows :
      (does : A → List (Act A)) (active : List (Active A)) (wakers early : ℕ) (p : Phase A)
      (r : Reactor A)
      → IsAwake r wakers early
      → r.phase ≡ p
      → Follows wakers (early_after p early) r (advance_at does active p r)
  unfolding advance_at end_of_tasks
  advance_at-Follows does active wakers early outside r a e = record {
    awake = a;
    added = [];
    order = sym (append-nil (line r));
  }
  advance_at-Follows does active wakers early in_poll r a e = record {
    awake = record {
      tasks_noticed = λ f n. absurd (ground (arith, f));
      quit_noticed = λ f n. absurd (ground (arith, f));
      calling = a.calling ∙ ap is_in_tasks e;
    };
    added = [];
    order = rw e (sym (append-nil (r.ran ++ r.pending_tasks)));
  }
  advance_at-Follows does active wakers early (in_events []) r a e =
      swap_tasks-Follows wakers early r (ap left_tasks e)
  advance_at-Follows does active wakers early (in_events (wakeup_channel ∷ rest)) r a e = record {
    awake = record {
      tasks_noticed = λ f n. absurd (ground (arith, f));
      quit_noticed = λ f n. absurd (ground (arith, f));
      calling = a.calling ∙ ap is_in_tasks e;
    };
    added = [];
    order = rw e (sym (append-nil (r.ran ++ r.pending_tasks)));
  }
  advance_at-Follows does active wakers early (in_events (channel x ∷ rest)) r a e =
      in_events-Follows wakers early rest r (does x) (a.calling ∙ ap is_in_tasks e)
        (ap left_tasks e)
  advance_at-Follows does active wakers early (in_tasks []) r a e =
      let k =
        next_turn-Follows wakers early
          (record r { is_calling_pending_tasks = false; phase = in_tasks [] })
          (a.tasks_noticed (ap is_in_events e)) refl refl in
      record { awake = k.awake; added = k.added; order = rw e k.order }
  advance_at-Follows does active wakers early (in_tasks (task ∷ rest)) r a e =
      in_tasks-Follows wakers early task rest r (does task) a e
