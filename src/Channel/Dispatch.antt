-- ===== src/Channel/Dispatch.antt =====
-- The callbacks of one event of flute/net/Channel.cc: which are made, and in what order.
use flute.Prelude.{
  ℕ, ◌<◌, ◌≡◌, Bool, true, false, not, ◌&&◌, ◌||◌, List, [], ◌∷◌, arith, if◌then◌else◌, Bool-cases,
  inl, inr,
}
use flute.Channel.{
  Channel, Events, Callback, Callbacks, on_read, on_write, on_close, on_error, handle_event,
  handle_event_with_guard,
}

-- The place of a callback in the order that the code promises.
abbrev pub place : Callback → ℕ
place on_close = 0
place on_error = 1
place on_read = 2
place on_write = 3

abbrev pub calls : Callback → List Callback → Bool
calls k [] = false
calls on_read (on_read ∷ ks) = true
calls on_write (on_write ∷ ks) = true
calls on_close (on_close ∷ ks) = true
calls on_error (on_error ∷ ks) = true
calls k (_ ∷ ks) = calls k ks

abbrev pub InOrder : List Callback → Type 0
InOrder [] = Unit
InOrder (k ∷ []) = Unit
InOrder (k ∷ k' ∷ ks) = (place k < place k') × InOrder (k' ∷ ks)

-- The events that a callback answers.
abbrev pub wanted : Callback → Events → Bool
wanted on_close e = e.pollhup && not e.pollin
wanted on_error e = e.pollerr || e.pollnval
wanted on_read e = e.pollin || e.pollpri || e.pollrdhup
wanted on_write e = e.pollout

abbrev pub is_set : Callbacks → Callback → Bool
is_set k on_close = k.close_callback
is_set k on_error = k.error_callback
is_set k on_read = k.read_callback
is_set k on_write = k.write_callback

-- A list of callbacks that holds what is wanted and set, each once and in order.
pub record IsAnswer (k : Callbacks) (e : Events) (ks : List Callback) : Type 0 where
  pub just_wanted : (x : Callback) → calls x ks ≡ wanted x e && is_set k x
  pub in_order : InOrder ks

guarded-IsAnswer : (k : Callbacks) (e : Events) → IsAnswer k e (handle_event_with_guard k e)
unfolding handle_event_with_guard
guarded-IsAnswer k e = record {
  just_wanted = λ x. elim x [
    | on_close ↦ ground arith
    | on_error ↦ ground arith
    | on_read ↦ ground arith
    | on_write ↦ ground arith
  ];
  in_order = ground arith;
}

abbrev pub no_callbacks : Callbacks
no_callbacks = record {
  read_callback = false;
  write_callback = false;
  close_callback = false;
  error_callback = false;
}

none-IsAnswer : (e : Events) → IsAnswer no_callbacks e []
none-IsAnswer e = record {
  just_wanted = λ x. elim x as (λ k. calls k [] ≡ wanted k e && is_set no_callbacks k) [
    | on_close ↦ ground arith
    | on_error ↦ ground arith
    | on_read ↦ ground arith
    | on_write ↦ ground arith
  ];
  in_order = tt;
}

-- For each event that it received, a channel calls the callbacks that are set for it, each once, in
-- the order close, error, read and write; it calls none when the object it is tied to is gone.
pub handle_event-IsAnswer :
    (k : Callbacks) (c : Channel) (alive : Bool)
    → IsAnswer
        (if c.tied && not alive then no_callbacks else k)
        c.recv_events
        (handle_event k c alive)
unfolding handle_event
handle_event-IsAnswer k c true = elim (Bool-cases c.tied) [
  | inr e ↦ rw e (guarded-IsAnswer k c.recv_events)
  | inl e ↦ rw e (guarded-IsAnswer k c.recv_events)
]
handle_event-IsAnswer k c false = elim (Bool-cases c.tied) [
  | inr e ↦ rw e (guarded-IsAnswer k c.recv_events)
  | inl e ↦ rw e (none-IsAnswer c.recv_events)
]
