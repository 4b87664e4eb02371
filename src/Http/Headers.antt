-- ===== src/Http/Headers.antt =====
-- The headers of a request as they are printed, for flute/net/http/HttpRequest.h: the text of a header is
-- its value between spaces.
use flute.Prelude.{ℕ, ◌≡◌, refl, ap, sym, ◌∙◌, true, false, List, [], ◌∷◌, ◌++◌, append-nil, All}
use flute.Buffer.Search.{crlf, IsLine}
use flute.Http.{HttpRequest, is_space, skip_spaces, chop_spaces, chop_end, add_header}
use flute.Http.RequestLine.{IsFree}

pub record Header : Type 0 where
  pub field : List ℕ
  pub before : List ℕ
  pub value : List ℕ
  pub behind : List ℕ

-- "field:value", with the spaces around the value.
abbrev pub after_colon : Header → List ℕ
after_colon h = h.before ++ (h.value ++ h.behind)

abbrev pub header_line : Header → List ℕ
header_line h = h.field ++ 58 ∷ after_colon h

-- A list of them with the empty line and what follows.
abbrev pub header_text : List Header → List ℕ → List ℕ
header_text [] rest = crlf ++ rest
header_text (h ∷ headers) rest = header_line h ++ (crlf ++ header_text headers rest)

abbrev pub AllSpaces : List ℕ → Type 0
AllSpaces text = All (λ c. is_space c ≡ true) text

abbrev pub StartsWell : List ℕ → Type 0
StartsWell [] = Unit
StartsWell (c ∷ s) = is_space c ≡ false

abbrev pub EndsWell : List ℕ → Type 0
EndsWell [] = Unit
EndsWell (c ∷ []) = is_space c ≡ false
EndsWell (c ∷ d ∷ s) = EndsWell (d ∷ s)

-- The value has no space at its ends, and nothing but spaces is around it.
pub record IsPadded (h : Header) : Type 0 where
  pub spaces_before : AllSpaces h.before
  pub spaces_behind : AllSpaces h.behind
  pub starts_well : StartsWell h.value
  pub ends_well : EndsWell h.value

abbrev pub AllHeaders : List Header → Type 0
AllHeaders [] = Unit
AllHeaders (h ∷ headers) =
    IsFree 58 h.field × IsLine (header_line h) × IsPadded h × AllHeaders headers

-- The fields with their values, the latest first.
abbrev pub latest_first : List Header → List (List ℕ × List ℕ) → List (List ℕ × List ℕ)
latest_first [] known = known
latest_first (h ∷ headers) known = latest_first headers ((h.field, h.value) ∷ known)

abbrev pub with_headers : List Header → HttpRequest → HttpRequest
with_headers headers r = record r { headers = latest_first headers r.headers }

skip_spaces-spaces : (pad s : List ℕ) → AllSpaces pad → skip_spaces (pad ++ s) ≡ skip_spaces s
skip_spaces-spaces [] s h = refl
skip_spaces-spaces (c ∷ pad) s (e, h) = rw e (skip_spaces-spaces pad s h)

chop_spaces-spaces : (pad : List ℕ) → AllSpaces pad → chop_spaces pad ≡ []
chop_spaces-spaces [] h = refl
chop_spaces-spaces (c ∷ pad) (e, h) = rw (chop_spaces-spaces pad h, e) refl

chop_spaces-append : (s pad : List ℕ) → AllSpaces pad → chop_spaces (s ++ pad) ≡ chop_spaces s
chop_spaces-append [] pad h = chop_spaces-spaces pad h
chop_spaces-append (c ∷ s) pad h = ap (chop_end c) (chop_spaces-append s pad h)

chop_spaces-well : (s : List ℕ) → EndsWell s → chop_spaces s ≡ s
chop_spaces-well [] h = refl
chop_spaces-well (c ∷ []) h = rw h refl
chop_spaces-well (c ∷ d ∷ s) h = ap (chop_end c) (chop_spaces-well (d ∷ s) h)

chop-padded :
    (value behind : List ℕ)
    → StartsWell value
    → EndsWell value
    → AllSpaces behind
    → chop_spaces (skip_spaces (value ++ behind)) ≡ value
chop-padded [] behind s e h =
    ap chop_spaces (ap skip_spaces (sym (append-nil behind)) ∙ skip_spaces-spaces behind [] h)
chop-padded (c ∷ value) behind s e h =
    rw s (chop_spaces-append (c ∷ value) behind h ∙ chop_spaces-well (c ∷ value) e)

-- What is kept of a header is its value, without the spaces around it.
pub add_header-padded :
    (h : Header) (r : HttpRequest)
    → IsPadded h
    → add_header h.field (after_colon h) r ≡ record r { headers = (h.field, h.value) ∷ r.headers }
unfolding add_header
add_header-padded h r p =
    ap (λ v. record r { headers = (h.field, v) ∷ r.headers })
      (ap chop_spaces (skip_spaces-spaces h.before (h.value ++ h.behind) p.spaces_before)
        ∙ chop-padded h.value h.behind p.starts_well p.ends_well p.spaces_behind)
