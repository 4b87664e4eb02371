-- ===== src/Acceptor/Held.antt =====
-- The descriptors that the acceptor of flute/net/Acceptor.cc holds.
use mathlib.Core.Option.{some-injective}
use flute.Prelude.{
  subst, ℕ, ◌≡◌, ◌≢◌, refl, ap, sym, ◌∙◌, Bool, true, false, ◌||◌, Option, none, some, List, [],
  ◌∷◌, ◌==◌, if◌then◌else◌, inl, inr, Bool-cases, arith,
}
use flute.Channel.{remove_self_from_reactor}
use flute.Acceptor.{
  Acceptor, new, set_new_conn_callback, mark, listen, Arrival, accepts, too_many_files, fails,
  new_connection, handle_conn_arrival, destroy,
}

abbrev pub is_some : ℕ → Option ℕ → Bool
is_some n none = false
is_some n (some m) = m == n

-- Just the socket and the reserved descriptor are held, and they are two.
pub record IsTidy (a : Acceptor) : Type 0 where
  pub held : (n : ℕ) → a.held n ≡ ((a.accept_sockfd == n) || is_some n a.reserved_fd)
  pub apart : a.reserved_fd ≢ some a.accept_sockfd

-- The kernel gives no descriptor that is open.
abbrev pub IsNew : Arrival → Acceptor → Type 0
IsNew (accepts connfd) a = a.held connfd ≡ false
IsNew (too_many_files accepted reopened) a =
    (accepted ≢ some a.accept_sockfd) × (reopened ≢ some a.accept_sockfd)
IsNew fails a = Unit

mark-if :
    (o : Option ℕ) (b : Bool) (held : ℕ → Bool) (n : ℕ)
    → mark o b held n ≡ (if is_some n o then b else held n)
mark-if none b held n = refl
mark-if (some m) b held n = refl

is_other :
    (n sockfd : ℕ) (o : Option ℕ) → o ≢ some sockfd → (sockfd == n) ≡ true → is_some n o ≡ false
is_other n sockfd none h e = refl
is_other n sockfd (some m) h e = elim (Bool-cases (m == n)) [
  | inl f ↦ absurd (h (ap some (ground (arith, e, f))))
  | inr f ↦ f
]

-- Whether a descriptor is held after the four calls, from whether it is the socket, the reserved one,
-- the accepted one or the one that was opened.
four_calls :
    (socket reserved accepted reopened h : Bool)
    → h ≡ (socket || reserved)
    → (socket ≡ true → reserved ≡ false)
    → (socket ≡ true → accepted ≡ false)
    → (if reopened
        then true
        else if accepted
        then false
        else if accepted
        then true
        else if reserved
        then false
        else h)
      ≡ (socket || reopened)
four_calls true reserved accepted true h e r a = refl
four_calls true reserved accepted false h e r a = rw (a refl, r refl) e
four_calls false reserved accepted true h e r a = refl
four_calls false true true false h e r a = refl
four_calls false true false false h e r a = refl
four_calls false false true false h e r a = refl
four_calls false false false false h e r a = e

-- The descriptors after the reserved one was given for a connection and opened again.
swapped :
    (sockfd : ℕ) (reserved accepted reopened : Option ℕ) (held : ℕ → Bool) (n : ℕ)
    → held n ≡ ((sockfd == n) || is_some n reserved)
    → reserved ≢ some sockfd
    → accepted ≢ some sockfd
    → mark reopened true (mark accepted false (mark accepted true (mark reserved false held))) n
      ≡ ((sockfd == n) || is_some n reopened)
swapped sockfd reserved accepted reopened held n e r a =
    mark-if reopened true (mark accepted false (mark accepted true (mark reserved false held))) n
    ∙ ap (λ b. if is_some n reopened then true else b)
        (mark-if accepted false (mark accepted true (mark reserved false held)) n
          ∙ ap (λ b. if is_some n accepted then false else b)
              (mark-if accepted true (mark reserved false held) n
                ∙ ap (λ b. if is_some n accepted then true else b) (mark-if reserved false held n)))
    ∙ four_calls (sockfd == n) (is_some n reserved) (is_some n accepted) (is_some n reopened)
        (held n) e (is_other n sockfd reserved r) (is_other n sockfd accepted a)

-- What the answer leaves held is what was: the connection is handed over or closed.
back :
    (connfd : ℕ) (held : ℕ → Bool) (n : ℕ)
    → held connfd ≡ false
    → mark (some connfd) false (mark (some connfd) true held) n ≡ held n
back connfd held n h = elim (Bool-cases (connfd == n)) [
  | inl e ↦ rw e (sym (ap held (ground (arith, e)) ∙ h))
  | inr e ↦ rw e refl
]

handle_conn_arrival-IsTidy :
    (e : Arrival) (a : Acceptor) → IsTidy a → IsNew e a → IsTidy (handle_conn_arrival e a)
unfolding handle_conn_arrival new_connection
handle_conn_arrival-IsTidy (accepts connfd) a v h = elim (Bool-cases a.has_callback) [
  | inl e ↦ rw e (record { held = λ n. back connfd a.held n h ∙ v.held n; apart = v.apart })
  | inr e ↦ rw e (record { held = λ n. back connfd a.held n h ∙ v.held n; apart = v.apart })
]
handle_conn_arrival-IsTidy (too_many_files accepted reopened) a v (h, k) = record {
  held = λ n. swapped a.accept_sockfd a.reserved_fd accepted reopened a.held n (v.held n) v.apart h;
  apart = k;
}
handle_conn_arrival-IsTidy fails a v h = v

-- Arrivals one after the other, with descriptors that are new at their time.
pub data Reach : List Arrival → Acceptor → Acceptor → Type 0 where
  stay : (a : Acceptor) → Reach [] a a
  step :
      {a b : Acceptor} {es : List Arrival} (e : Arrival)
      → IsNew e a
      → Reach es (handle_conn_arrival e a) b
      → Reach (e ∷ es) a b

Reach-IsTidy : {a b : Acceptor} {es : List Arrival} → Reach es a b → IsTidy a → IsTidy b
Reach-IsTidy (Reach.stay a) v = v
Reach-IsTidy (Reach.step {a} e h r) v = Reach-IsTidy r (handle_conn_arrival-IsTidy e a v h)

freed :
    (socket reserved h : Bool)
    → h ≡ (socket || reserved)
    → (if socket then false else if reserved then false else h) ≡ false
freed true reserved h e = refl
freed false true h e = refl
freed false false h e = e

-- All that the acceptor held is closed.
abbrev pub Frees : Acceptor → Type 0
Frees a = (b : Acceptor) × (destroy a ≡ some b) × ((n : ℕ) → b.held n ≡ false)

destroy-Frees : (a : Acceptor) → IsTidy a → Frees a
unfolding destroy remove_self_from_reactor
destroy-Frees a v = (
  _,
  refl,
  λ n.
      ap (λ b. if a.accept_sockfd == n then false else b) (mark-if a.reserved_fd false a.held n)
      ∙ freed (a.accept_sockfd == n) (is_some n a.reserved_fd) (a.held n) (v.held n),
)

new-IsTidy :
    (sockfd reserved : ℕ) (a : Acceptor)
    → reserved ≢ sockfd
    → new sockfd (some reserved) ≡ some a
    → IsTidy (listen (set_new_conn_callback a))
unfolding new listen
new-IsTidy sockfd reserved a h e =
    subst (λ x. IsTidy (listen (set_new_conn_callback x))) (some-injective _ _ e)
      (record { held = λ n. ground arith; apart = λ f. h (some-injective _ _ f) })

-- An acceptor that listens, whatever connections arrive or are refused for want of descriptors, holds
-- just its socket and its reserved descriptor, where the kernel gives no descriptor that is open; and
-- its destruction does not fail and leaves none of them open.
pub Reach-Frees :
    (sockfd reserved : ℕ) (a b : Acceptor) (es : List Arrival)
    → reserved ≢ sockfd
    → new sockfd (some reserved) ≡ some a
    → Reach es (listen (set_new_conn_callback a)) b
    → IsTidy b × Frees b
Reach-Frees sockfd reserved a b es h e r =
    let v = Reach-IsTidy r (new-IsTidy sockfd reserved a h e) in (v, destroy-Frees b v)
