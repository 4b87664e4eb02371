-- ===== src/HttpServer/Tests.antt =====
-- Runs of the definitions of flute/net/http/HttpServer.cc.
use flute.Prelude.{ℕ, List, ◌≡◌, refl, true, false, none, some, [], ◌∷◌, ◌++◌, arith, replicate}
use flute.Buffer.{Buffer}
use flute.Channel.{Channel, k_none_event, with_read}
use flute.Connection.{Connection, k_connected, k_disconnecting, k_not_sending}
use flute.Http
use flute.HttpResponse
use flute.HttpResponse.{decimal}
use flute.Buffer.Inv.{Holds}
use flute.Http.{k_get, new_context}
use flute.HttpServer.Requests.{request_text, on_message-Answered}
use flute.HttpServer.{on_message, on_connection, dummy_404_callback}
use flute.HttpServer.Answers.{Answered, page}

-- Three bytes wait in the output buffer.
abbrev waiting : Buffer
waiting = record { bytes = replicate 12 0 ++ (1 ∷ 2 ∷ 3 ∷ []); read_idx = 12; write_idx = 15 }

abbrev reading : Channel
reading = record {
  fd = 5;
  concerned_events = with_read true k_none_event;
  recv_events = k_none_event;
  idx = some 1;
  tied = true;
  is_handing_event = false;
  is_in_reactor = true;
}

abbrev connected : Connection
connected = record {
  conn_state = k_connected;
  sending_state = k_not_sending;
  reading = true;
  channel = reading;
  input_buffer = waiting;
  output_buffer = waiting;
  zero_copier = none;
  highwater_mark = 4;
  highwater_callback = true;
  write_complete_callback = true;
  effects = [];
}

-- "GET / HTTP/1.1", an empty line, and nothing else.
abbrev request : List ℕ
request = request_text k_get (47 ∷ []) none true []

abbrev arrived : Buffer
arrived = record { bytes = replicate 8 0 ++ request; read_idx = 8; write_idx = 26 }

arrived-Holds : Holds arrived request
arrived-Holds = record {
  front = replicate 8 0;
  back = [];
  split = refl;
  starts = refl;
  ends = refl;
  room = omega arith;
  bounded = omega arith;
}

on_message-Answered_example :
    (c' : Connection) × (on_message dummy_404_callback 2 9
        (on_connection none connected)
        (record connected { input_buffer = arrived })
      ≡ some (c', new_context))
    × Answered
        (record connected { input_buffer = arrived })
        (page (dummy_404_callback Http.new (HttpResponse.new false)))
        c'
    × (c'.conn_state ≡ k_disconnecting)
unfolding decimal
on_message-Answered_example =
    on_message-Answered dummy_404_callback k_get (47 ∷ []) none true [] 0 9 connected
      (record connected { input_buffer = arrived }) none refl (ground arith) refl refl refl tt
      arrived-Holds (dummy_404_callback Http.new (HttpResponse.new false)) refl refl (omega arith)
      refl (omega arith) (omega arith)
