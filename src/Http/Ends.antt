-- ===== src/Http/Ends.antt =====
-- The loop of `parse_request` in flute/net/http/HttpContext.cc: when it ends, and when it aborts.
use flute.Prelude.{
  ℕ, zero, suc, ◌+◌, ◌≤◌, ◌<◌, ◌≡◌, refl, ap, subst, ◌⊎◌, inl, inr, Bool, true, false, Option, none,
  some, ◌++◌, arith, length, length-append, Option-cases,
}
use flute.Buffer.{Buffer, range, find_crlf, retrieve_until, content_bytes_len}
use flute.Buffer.Inv.{IsValid, Holds, Holds-IsValid, Holds-length, IsValid-Holds, length-contents}
use flute.Buffer.Search.{crlf, find_crlf-content}
use flute.Http.{
  HttpRequest, HttpContext, ParseState, split_at, process_request_line, k_expect_request_line,
  k_expect_headers, k_expect_body, k_got_all, Turn, goes_on, returns, take_request_line,
  take_header, turn, Run, returned, aborted, still_running, loop, parse_request,
}
use flute.Http.Lines.{retrieve_until-line}

abbrev pub is_running : Run → Bool
is_running still_running = true
is_running _ = false

-- `kExpectBody` is no state that the parser sets.
abbrev pub is_parsing : ParseState → Bool
is_parsing k_expect_body = false
is_parsing _ = true

-- Either no line is complete, or there is one to take, which makes the buffer shorter.
abbrev HasLine : Buffer → ℕ → Type 0
HasLine b p =
    (b' : Buffer) × (retrieve_until b (p + 2) ≡ some b')
    × IsValid b'
    × (content_bytes_len b' + 2 ≤ content_bytes_len b)

next_line :
    {b : Buffer}
    → IsValid b
    → (find_crlf b ≡ none) ⊎ ((p : ℕ) × (find_crlf b ≡ some p) × HasLine b p)
next_line {b} v = elim (find_crlf-content v) [
  | inl (no_crlf, e) ↦ inl e
  | inr (line, rest, split, is_line, e) ↦
      let (b', run, held) =
        retrieve_until-line line rest (subst (Holds b) split (IsValid-Holds v)) in
      inr (
        b.read_idx + length line,
        e,
        (
          b',
          run,
          Holds-IsValid held,
          omega (
            arith,
            Holds-length held,
            length-contents b v,
            ap length split,
            length-append line (crlf ++ rest),
            length-append crlf rest,
          ),
        ),
      )
]

-- A turn that is no last one leaves a parser at work with a shorter buffer.
abbrev Shrinks : Buffer → Option Turn → Type 0
Shrinks b none = Unit
Shrinks b (some (returns ok c b')) = Unit
Shrinks b (some (goes_on ok c b')) =
    (is_parsing c.state ≡ true) × IsValid b' × (content_bytes_len b' < content_bytes_len b)

request_line-Shrinks :
    (time p : ℕ) (c : HttpContext) (b : Buffer)
    → HasLine b p
    → Shrinks b (take_request_line time p c b)
unfolding take_request_line
request_line-Shrinks time p c b (b', run, v, short) =
    elim (Option-cases (process_request_line (range b b.read_idx p) c.request)) [
      | inl e ↦ rw (take_request_line, e) tt
      | inr ((false, r), e) ↦ rw (take_request_line, e) tt
      | inr ((true, r), e) ↦ rw (take_request_line, e, run) (refl, v, omega (arith, short))
    ]

header-Shrinks :
    (p : ℕ) (ok : Bool) (r : HttpRequest) (b : Buffer)
    → HasLine b p
    → Shrinks b (take_header ok p (record { state = k_expect_headers; request = r }) b)
unfolding take_header
header-Shrinks p ok r b (b', run, v, short) =
    elim (Option-cases (split_at 58 (range b b.read_idx p))) [
      | inl e ↦ rw (take_header, e, run) tt
      | inr ((field, after), e) ↦ rw (take_header, e, run) (refl, v, omega (arith, short))
    ]

turn-Shrinks :
    (time : ℕ) (ok : Bool) (s : ParseState) (r : HttpRequest) (b : Buffer)
    → is_parsing s ≡ true
    → IsValid b
    → Shrinks b (turn time ok (record { state = s; request = r }) b)
unfolding turn
turn-Shrinks time ok k_expect_body r b p v = absurd (ground arith)
turn-Shrinks time ok k_got_all r b p v = tt
turn-Shrinks time ok k_expect_request_line r b p v = elim (next_line v) [
  | inl e ↦ rw (turn, e) tt
  | inr (q, e, line) ↦
      rw (turn, e)
        (request_line-Shrinks time q (record { state = k_expect_request_line; request = r }) b line)
]
turn-Shrinks time ok k_expect_headers r b p v = elim (next_line v) [
  | inl e ↦ rw (turn, e) tt
  | inr (q, e, line) ↦ rw (turn, e) (header-Shrinks q ok r b line)
]

after_turn-ends :
    (turns time : ℕ) (t : Option Turn) (b : Buffer)
    → Shrinks b t
    → ((ok : Bool) (c : HttpContext) (b' : Buffer)
        → is_parsing c.state ≡ true
        → IsValid b'
        → content_bytes_len b' < content_bytes_len b
        → is_running (loop turns time ok c b') ≡ false)
    → is_running (elim t [
      | none ↦ aborted
      | some (returns ok' c' b') ↦ returned ok' c' b'
      | some (goes_on ok' c' b') ↦ loop turns time ok' c' b'
    ])
      ≡ false
after_turn-ends turns time none b s k = refl
after_turn-ends turns time (some (returns ok' c' b')) b s k = refl
after_turn-ends turns time (some (goes_on ok' c' b')) b (p', v', short) k = k ok' c' b' p' v' short

loop-ends :
    (turns time : ℕ) (ok : Bool) (c : HttpContext) {b : Buffer}
    → is_parsing c.state ≡ true
    → IsValid b
    → content_bytes_len b < turns
    → is_running (loop turns time ok c b) ≡ false
unfolding loop
loop-ends zero time ok c {b} p v enough = absurd (omega (arith, enough))
loop-ends (suc turns) time ok c {b} p v enough =
    after_turn-ends turns time (turn time ok c b) b (turn-Shrinks time ok c.state c.request b p v)
      (λ ok' c' b' p' v' short. loop-ends turns time ok' c' p' v' (omega (arith, enough, short)))

-- On a valid buffer a call of `parse_request` comes to its end, with one turn more than the buffer
-- has bytes, unless it is in the state `kExpectBody`.
pub parse_request-ends :
    (turns time : ℕ) (c : HttpContext) {b : Buffer}
    → is_parsing c.state ≡ true
    → IsValid b
    → content_bytes_len b < turns
    → is_running (parse_request turns time c b) ≡ false
unfolding parse_request
parse_request-ends turns time c p v enough = loop-ends turns time false c p v enough
