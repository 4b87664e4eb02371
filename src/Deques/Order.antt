-- ===== src/Deques/Order.antt =====
-- The queue of flute/common/BoundedBlockingDeque.h against an ideal one, which is a list of values with a
-- bound.
use flute.Prelude.{
  ℕ, ◌+◌, ◌≤◌, ◌≡◌, refl, ap, ◌∙◌, sym, inl, inr, Bool, true, false, List, [], ◌∷◌, ◌++◌, arith,
  length, length-append, ltb, ◌==◌, if◌then◌else◌, Bool-cases,
}
use flute.Deques.{Call, waits, aborts, done, BoundedBlockingDeque, push, take_front, set_size}

-- Calls of any threads, in the order in which they get the lock; `true` pushes at the back. A call that
-- waits leaves the queue alone.
pub data Op {ℓ} (A : Type ℓ) : Type ℓ where
  push_op : Bool → A → Op A
  take_op : Op A
  set_size_op : ℕ → Op A

-- A queue with the values that were taken from it.
pub record History {ℓ} (A : Type ℓ) : Type ℓ where
  pub queue : BoundedBlockingDeque A
  pub taken : List A

pub record Ideal {ℓ} (A : Type ℓ) : Type ℓ where
  pub size : ℕ
  pub values : List A
  pub taken : List A

module _ {ℓ} {A : Type ℓ} where
  abbrev pub values : List (ℕ × A) → List A
  values [] = []
  values ((id, x) ∷ es) = x ∷ values es

  abbrev pub after_push : History A → Call (BoundedBlockingDeque A) → Call (History A)
  after_push h waits = done h
  after_push h aborts = aborts
  after_push h (done q) = done (record h { queue = q })

  abbrev pub after_take : History A → Call ((ℕ × A) × BoundedBlockingDeque A) → Call (History A)
  after_take h waits = done h
  after_take h aborts = aborts
  after_take h (done ((id, x), q)) = done (record { queue = q; taken = h.taken ++ (x ∷ []) })

  abbrev pub after_op : Op A → History A → Call (History A)
  after_op (push_op push_back x) h = after_push h (push push_back x h.queue)
  after_op take_op h = after_take h (take_front h.queue)
  after_op (set_size_op size) h = done (record h { queue = set_size size h.queue })

  abbrev pub run : List (Op A) → Call (History A) → Call (History A)
  run [] r = r
  run (op ∷ ops) (done h) = run ops (after_op op h)
  run (op ∷ ops) waits = waits
  run (op ∷ ops) aborts = aborts

  -- The ideal queue: a value goes to its end if there is room, and the first one is taken.
  abbrev pub put : Bool → A → List A → List A
  put push_back x xs = if push_back then xs ++ (x ∷ []) else x ∷ xs

  abbrev pub take_first : List A → Ideal A → Ideal A
  take_first [] s = s
  take_first (x ∷ xs) s = record s { values = xs; taken = s.taken ++ (x ∷ []) }

  abbrev pub ideal : Op A → Ideal A → Ideal A
  ideal (push_op push_back x) s =
      if ltb (length s.values) s.size then record s { values = put push_back x s.values } else s
  ideal take_op s = take_first s.values s
  ideal (set_size_op size) s = record s { size = size }

  abbrev pub ideals : List (Op A) → Ideal A → Ideal A
  ideals [] s = s
  ideals (op ∷ ops) s = ideals ops (ideal op s)

  -- No new size is below the number of the values that are in the queue then.
  abbrev pub IsRoomy : Op A → Ideal A → Type 0
  IsRoomy (set_size_op size) s = length s.values ≤ size
  IsRoomy (push_op push_back x) s = Unit
  IsRoomy take_op s = Unit

  abbrev pub AllRoomy : List (Op A) → Ideal A → Type 0
  AllRoomy [] s = Unit
  AllRoomy (op ∷ ops) s = IsRoomy op s × AllRoomy ops (ideal op s)

  -- The queue is the ideal one, and within its bound.
  pub record Agrees (h : History A) (s : Ideal A) : Type ℓ where
    pub size : h.queue.max_queue_size ≡ s.size
    pub content : values h.queue.deque ≡ s.values
    pub taken : h.taken ≡ s.taken
    pub bounded : length h.queue.deque ≤ h.queue.max_queue_size

  abbrev pub Refines : Ideal A → Call (History A) → Type ℓ
  Refines s r = (h : History A) × (r ≡ done h) × Agrees h s

  length-values : (es : List (ℕ × A)) → length (values es) ≡ length es
  length-values [] = refl
  length-values ((id, x) ∷ es) = omega (arith, length-values es)

  values-append : (xs ys : List (ℕ × A)) → values (xs ++ ys) ≡ values xs ++ values ys
  values-append [] ys = refl
  values-append ((id, x) ∷ xs) ys = ap (◌∷◌ x) (values-append xs ys)

  put_element : Bool → ℕ × A → List (ℕ × A) → List (ℕ × A)
  put_element push_back e es = if push_back then es ++ (e ∷ []) else e ∷ es

  values-put :
      (push_back : Bool) (id : ℕ) (x : A) (es : List (ℕ × A))
      → values (put_element push_back (id, x) es) ≡ put push_back x (values es)
  unfolding put_element
  values-put true id x es = values-append es ((id, x) ∷ [])
  values-put false id x es = refl

  length-put :
      (push_back : Bool) (e : ℕ × A) (es : List (ℕ × A))
      → length (put_element push_back e es) ≡ length es + 1
  unfolding put_element
  length-put true e es = omega (arith, length-append es (e ∷ []))
  length-put false e es = omega arith

  push_op-Refines :
      (push_back : Bool) (x : A) (h : History A) (s : Ideal A)
      → Agrees h s
      → Refines (ideal (push_op push_back x) s) (after_op (push_op push_back x) h)
  unfolding push put_element
  push_op-Refines push_back x h s a = elim (Bool-cases (ltb (length s.values) s.size)) [
    | inr e ↦
        let full : (length h.queue.deque == h.queue.max_queue_size) ≡ true =
          ground (arith, e, a.size, a.bounded, ap length a.content, length-values h.queue.deque) in
        (h, rw (push, full) refl, rw e a)
    | inl e ↦
        let room : ltb (length h.queue.deque) h.queue.max_queue_size ≡ true =
          ground (arith, e, a.size, ap length a.content, length-values h.queue.deque) in
        let not_full : (length h.queue.deque == h.queue.max_queue_size) ≡ false =
          ground (arith, room) in
        (
          record h {
            queue = record (h.queue) {
              id_counter = h.queue.id_counter + 1;
              deque = put_element push_back (h.queue.id_counter + 1, x) h.queue.deque;
            };
          },
          rw (push, not_full, room) refl,
          rw e (record {
            size = a.size;
            content =
                values-put push_back (h.queue.id_counter + 1) x h.queue.deque
                ∙ ap (put push_back x) a.content;
            taken = a.taken;
            bounded =
                ground
                  (arith, room, length-put push_back (h.queue.id_counter + 1, x) h.queue.deque);
          }),
        )
  ]

  take_op-Refines :
      (h : History A) (s : Ideal A) (es : List (ℕ × A))
      → h.queue.deque ≡ es
      → Agrees h s
      → Refines (ideal take_op s) (after_op take_op h)
  unfolding take_front
  take_op-Refines h s [] e a = (
    h,
    rw (take_front, e) refl,
    rw (sym a.content ∙ ap values e)
        (record { size = a.size; content = ap values e; taken = a.taken; bounded = a.bounded }),
  )
  take_op-Refines h s ((id, x) ∷ es) e a = (
    record { queue = record (h.queue) { deque = es }; taken = h.taken ++ (x ∷ []) },
    rw (take_front, e) refl,
    rw (sym a.content ∙ ap values e) (record {
      size = a.size;
      content = refl;
      taken = ap (λ t. t ++ (x ∷ [])) a.taken;
      bounded = omega (arith, ap length e, a.bounded);
    }),
  )

  op-Refines :
      (op : Op A) (h : History A) (s : Ideal A)
      → IsRoomy op s
      → Agrees h s
      → Refines (ideal op s) (after_op op h)
  op-Refines (push_op push_back x) h s roomy a = push_op-Refines push_back x h s a
  op-Refines take_op h s roomy a = take_op-Refines h s h.queue.deque refl a
  op-Refines (set_size_op size) h s roomy a = (
    record h { queue = set_size size h.queue },
    refl,
    record {
      size = refl;
      content = a.content;
      taken = a.taken;
      bounded = omega (arith, roomy, ap length a.content, length-values h.queue.deque);
    },
  )

  -- Pushes at either end, takes and new sizes, none of which is below the number of the values that are
  -- there then, in whatever order: the queue never fails its assertion and stays within its size; and
  -- its values and those taken are the ones of an ideal queue, a list to whose end a value is put if
  -- there is room, and whose first value is taken if there is one.
  pub run-Refines :
      (ops : List (Op A)) (h : History A) (s : Ideal A)
      → Agrees h s
      → AllRoomy ops s
      → Refines (ideals ops s) (run ops (done h))
  run-Refines [] h s a roomy = (h, refl, a)
  run-Refines (op ∷ ops) h s a (first, roomy) =
      let (h', e, a') = op-Refines op h s first a in rw e (run-Refines ops h' (ideal op s) a' roomy)
