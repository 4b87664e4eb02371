-- ===== src/TimerQueue/Runs.antt =====
-- Runs of flute/net/TimerQueue.cc: timers are added and removed, and the timerfd goes off.
use flute.Prelude.{ℕ, ◌<◌, ◌≡◌, refl, false, List, [], ◌∷◌, Option, some, All, arith, ◌>>=◌}
use flute.TimerQueue.{Timer, TimerQueue, Act, new, perform, handle_timerfd_read}
use flute.TimerQueue.Armed.{ArmedFor}
use flute.TimerQueue.Inv.{Inv}
use flute.TimerQueue.Calls.{IsValidAct, GivesFree, perform-Keeps}
use flute.TimerQueue.Alarms.{handle_timerfd_read-Fired}

pub data Op {ℓ} (A : Type ℓ) : Type ℓ where
  acts : Act A → Op A
  goes_off : (now clock : ℕ) → Op A

module _ {ℓ} {A : Type ℓ} where
  -- The times given are over zero.
  abbrev pub IsValidOp : Op A → Type 0
  IsValidOp (acts act) = IsValidAct act
  IsValidOp (goes_off now clock) = 0 < now

  -- The sets and the heap agree, and the timerfd is set for the first timer or a time before.
  pub record Good (q : TimerQueue A) : Type ℓ where
    pub inv : Inv (λ p. false) q
    pub armed : ArmedFor q.timer_fd q.timers_set

  pub new-Good : Good (new {A = A})
  new-Good = record {
    inv = record {
      timers_sorted = tt;
      active_sorted = tt;
      sizes = refl;
      timers = λ t p. refl;
      active = λ p i. refl;
      waiting = λ p h. absurd (ground (arith, h));
      placed = λ p. tt;
    };
    armed = tt;
  }

module _ {ℓ} {A : Type ℓ} (malloc : (ℕ → Option (Timer A)) → Option ℕ)
    (does : A → List (Act A)) where
  abbrev pub after_op : Op A → TimerQueue A → Option (TimerQueue A)
  after_op (acts act) q = perform malloc act q
  after_op (goes_off now clock) q = handle_timerfd_read malloc does now clock q

  abbrev pub run : List (Op A) → TimerQueue A → Option (TimerQueue A)
  run [] q = some q
  run (op ∷ ops) q = after_op op q >>= λ r. run ops r

module _ {ℓ} {A : Type ℓ} (malloc : (ℕ → Option (Timer A)) → Option ℕ) (does : A → List (Act A))
    (free : GivesFree malloc) (valid : (cb : A) → All IsValidAct (does cb)) where
  after_op-Good :
      (op : Op A) (q : TimerQueue A)
      → IsValidOp op
      → Good q
      → (r : TimerQueue A) × (after_op malloc does op q ≡ some r) × Good r
  after_op-Good (acts act) q o g =
      let (r, e, k) = perform-Keeps malloc free act q (λ p. false) o g.inv in
      (r, e, record { inv = k.inv; armed = k.armed g.armed })
  after_op-Good (goes_off now clock) q o g =
      let (r, e, k) = handle_timerfd_read-Fired malloc does free valid now clock q o g.inv in
      (r, e, record { inv = k.inv; armed = k.armed })

  -- Whatever timers are added and removed, by the callbacks as well, and whenever the timerfd goes off,
  -- where all times are over zero and `malloc` gives no address in use: no assertion fails and no
  -- deleted timer is used, both sets hold the live timers, each once and with the time and the id it
  -- has, and between the calls the timerfd is set for the first timer or for a time before it.
  pub run-Good :
      (ops : List (Op A)) (q : TimerQueue A)
      → All IsValidOp ops
      → Good q
      → (r : TimerQueue A) × (run malloc does ops q ≡ some r) × Good r
  run-Good [] q o g = (q, refl, g)
  run-Good (op ∷ ops) q (o, os) g =
      let (r, e, k) = after_op-Good op q o g in
      let (s, f, m) = run-Good ops r os k in (s, rw e f, m)
