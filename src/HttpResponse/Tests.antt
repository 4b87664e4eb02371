-- ===== src/HttpResponse/Tests.antt =====
-- Runs of the definitions of flute/net/http/HttpResponse.cc.
use flute.Prelude.{◌≡◌, refl, false, [], ◌∷◌, arith, replicate}
use flute.Buffer.{Buffer}
use flute.Buffer.Room.{HasRoom}
use flute.HttpResponse.{HttpResponse, new, k_200_ok, set_body, add_header, decimal}
use flute.HttpResponse.Text.{text}

abbrev empty : Buffer
empty = record { bytes = replicate 16 0; read_idx = 8; write_idx = 8 }

-- "hi", with the header "B: c" before the header "a: d", though it was added later.
abbrev greeting : HttpResponse
greeting = add_header (66 ∷ []) (99 ∷ []) (
    add_header (97 ∷ []) (100 ∷ []) (
      set_body (104 ∷ 105 ∷ [])
        (record (new false) { status_code = k_200_ok; status_message = 79 ∷ 75 ∷ [] })))

empty-HasRoom : HasRoom 8 empty [] (text greeting 2)
unfolding decimal
empty-HasRoom = record {
  holds = record {
    front = replicate 8 0;
    back = replicate 8 0;
    split = refl;
    starts = refl;
    ends = refl;
    room = omega arith;
    bounded = omega arith;
  };
  starts_by = omega arith;
  fits = omega arith;
  short = omega arith;
}

printed_1024 : decimal 1024 ≡ 49 ∷ 48 ∷ 50 ∷ 52 ∷ []
unfolding decimal
printed_1024 = refl
