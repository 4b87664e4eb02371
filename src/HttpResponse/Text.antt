-- ===== src/HttpResponse/Text.antt =====
-- What flute/net/http/HttpResponse.cc puts into a buffer.
use flute.Prelude.{
  ℕ, ◌≡◌, refl, inl, inr, some, List, [], ◌∷◌, ◌++◌, append-nil, if◌then◌else◌, Bool-cases,
}
use flute.Buffer.{Buffer}
use flute.Buffer.Room.{
  HasRoom, LeavesBy, HasRoom-first, append_piece-LeavesBy, bind-LeavesBy,
  append_piece-then-LeavesBy,
}
use flute.HttpResponse.{
  HttpResponse, content_length, append_connection, append_headers, append_to_buffer, status_start,
  crlf, colon, close_line, length_line, keep_alive_line,
}

-- The lines for the connection, where the body has `n` bytes.
abbrev pub connection_text : HttpResponse → ℕ → List ℕ
connection_text r n = if r.will_close then close_line else length_line n ++ keep_alive_line

abbrev pub headers_text : List (List ℕ × List ℕ) → List ℕ
headers_text [] = []
headers_text ((first, second) ∷ headers) =
    first ++ (colon ++ (second ++ (crlf ++ headers_text headers)))

-- The whole answer.
abbrev pub text : HttpResponse → ℕ → List ℕ
text r n =
    status_start r
    ++ (r.status_message
        ++ (crlf ++ (connection_text r n ++ (headers_text r.headers ++ (crlf ++ r.body)))))

append_connection-LeavesBy :
    {i : ℕ} {b : Buffer} {xs : List ℕ} (r : HttpResponse) (n : ℕ)
    → content_length r ≡ some n
    → HasRoom i b xs (connection_text r n)
    → LeavesBy i (xs ++ connection_text r n) (append_connection r b)
unfolding append_connection
append_connection-LeavesBy {i} {b} {xs} r n size h = elim (Bool-cases r.will_close) [
  | inl e ↦ simp e (append_piece-LeavesBy close_line (simp e at h))
  | inr e ↦
      simp (e, size)
        (append_piece-then-LeavesBy (length_line n) keep_alive_line _ (simp e at h)
          (λ b' k. append_piece-LeavesBy keep_alive_line k))
]

append_headers-LeavesBy :
    {i : ℕ} {b : Buffer} {xs : List ℕ} (headers : List (List ℕ × List ℕ))
    → HasRoom i b xs (headers_text headers)
    → LeavesBy i (xs ++ headers_text headers) (append_headers headers b)
unfolding append_headers
append_headers-LeavesBy {i} {b} {xs} [] h = (b, refl, rw (append-nil xs) h.holds, h.starts_by)
append_headers-LeavesBy ((first, second) ∷ headers) h =
    append_piece-then-LeavesBy first _ _ h (λ b₁ h₁.
      append_piece-then-LeavesBy colon _ _ h₁ (λ b₂ h₂.
        append_piece-then-LeavesBy second _ _ h₂ (λ b₃ h₃.
          append_piece-then-LeavesBy crlf _ _ h₃ (λ b₄ h₄. append_headers-LeavesBy headers h₄))))

-- An answer whose length is known, which is one without a file or with an opened one, is appended to a
-- buffer with room for it: the status line, the lines for the connection, the headers in the order
-- of their fields, an empty line and the body.
pub append_to_buffer-text :
    {i : ℕ} {b : Buffer} {xs : List ℕ} (r : HttpResponse) (n : ℕ)
    → content_length r ≡ some n
    → HasRoom i b xs (text r n)
    → LeavesBy i (xs ++ text r n) (append_to_buffer r b)
unfolding append_to_buffer
append_to_buffer-text r n size h = append_piece-then-LeavesBy (status_start r) _ _ h (λ b₁ h₁.
    append_piece-then-LeavesBy r.status_message _ _ h₁ (λ b₂ h₂.
      append_piece-then-LeavesBy crlf _ _ h₂ (λ b₃ h₃.
        bind-LeavesBy (connection_text r n) _ (append_connection r b₃) _ h₃
          (append_connection-LeavesBy r n size (HasRoom-first (connection_text r n) _ h₃))
          (λ b₄ h₄.
            bind-LeavesBy (headers_text r.headers) _ (append_headers r.headers b₄) _ h₄
              (append_headers-LeavesBy r.headers (HasRoom-first (headers_text r.headers) _ h₄))
              (λ b₅ h₅.
                append_piece-then-LeavesBy crlf _ _ h₅
                  (λ b₆ h₆. append_piece-LeavesBy r.body h₆))))))
