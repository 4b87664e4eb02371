-- ===== src/Connection/Tests.antt =====
-- Connections of flute/net/TcpConnection.cc at concrete states.
use flute.Prelude.{◌≡◌, refl, true, false, some, [], ◌∷◌, ◌++◌, arith, replicate, subst}
use mathlib.Core.Option.{some-injective}
use flute.Buffer
use flute.Buffer.{Buffer, got, contents}
use flute.Buffer.Inv.{IsValid}
use flute.Channel.{Channel, k_none_event, with_write, with_read}
use flute.ZeroCopier.{
  ZeroCopier, k_zero_copy, bytes_to_send, send_one_chunk, send_by_mode, send_one_chunk_zerocopy,
  count_failure,
}
use flute.ZeroCopier.Stream.{by_sendfile, Honest}
use flute.Connection.{
  Connection, Owner, k_connected, k_not_sending, k_sending_file, wrote, sent_chunk,
}
use flute.Connection.Ready.{
  Writable, send_from_buffer, send_from_file, send_with, copy_chunk, write_socket_from_buffer,
  transfer_sending_state, transfer_from, finish_writing, handle_socket_writable,
}
use flute.Connection.Stream.{OwesAfter, HonestWritable, handle_socket_writable-Owes}
use flute.Connection.Writing.{IsArmed, handle_socket_writable-IsArmed}
use flute.Connection.Rank.{Forward}
use flute.Connection.State.{perform, IsPolite, perform-Forward, readable_op}
use flute.Connection.Stuck.{file_and_bytes_stuck}

abbrev filled : Buffer
filled = record { bytes = replicate 12 0 ++ (1 ∷ 2 ∷ 3 ∷ []); read_idx = 12; write_idx = 15 }

abbrev page : ZeroCopier
page = record {
  source = 7 ∷ 8 ∷ 9 ∷ [];
  file_pos = 0;
  source_available = true;
  target_fd = some 5;
  failure_counter = 0;
  total_bytes = 3;
  offset = 0;
  started = true;
}

abbrev watching : Channel
watching = record {
  fd = 5;
  concerned_events = with_read true (with_write true k_none_event);
  recv_events = k_none_event;
  idx = some 1;
  tied = true;
  is_handing_event = false;
  is_in_reactor = true;
}

abbrev sending : Connection
sending = record {
  conn_state = k_connected;
  sending_state = k_not_sending;
  reading = true;
  channel = watching;
  input_buffer = filled;
  output_buffer = filled;
  zero_copier = some page;
  highwater_mark = 4;
  highwater_callback = true;
  write_complete_callback = true;
  effects = [];
}

abbrev accepts_all : Writable
accepts_all = record {
  accepted = some 3;
  globals = record { chunk_size = 2; copy_mode = k_zero_copy };
  answers = record {
    sendfile = some 2;
    mmap_ok = true;
    send = some 2;
    munmap_ok = true;
    read = some 2;
    write = some 2;
  };
}

abbrev quiet_owner : Owner
quiet_owner = record {
  conn_callback = λ c. some c;
  message_callback = λ c. some c;
  close_callback = λ c. some c;
}

filled-IsValid : IsValid filled
filled-IsValid = omega arith

accepts_all-HonestWritable : HonestWritable sending accepts_all
accepts_all-HonestWritable = record {
  write_le = omega arith;
  by_offset = by_sendfile;
  chunk_le = λ z e.
      subst (λ x. Honest (bytes_to_send accepts_all.globals x) accepts_all.answers)
        (some-injective page z e) (record { sendfile_le = omega arith; send_le = omega arith });
}

-- What the event makes of the connection: the three bytes are sent, then two of the file's.
abbrev after_event : Connection
after_event = record sending {
  sending_state = k_sending_file;
  output_buffer = record filled { read_idx = 8; write_idx = 8 };
  zero_copier = some (record page { offset = 2 });
  effects = wrote (1 ∷ 2 ∷ 3 ∷ []) ∷ sent_chunk (7 ∷ 8 ∷ []) ∷ [];
}

after_event_run : handle_socket_writable accepts_all sending ≡ some after_event
unfolding handle_socket_writable send_from_buffer send_from_file send_with copy_chunk
    write_socket_from_buffer transfer_sending_state transfer_from finish_writing send_one_chunk
    send_by_mode send_one_chunk_zerocopy count_failure Buffer.retrieve Buffer.retrieve_all
after_event_run = refl

handle_socket_writable-Owes_example :
    OwesAfter accepts_all sending (handle_socket_writable accepts_all sending)
handle_socket_writable-Owes_example =
    handle_socket_writable-Owes sending accepts_all filled-IsValid
      (record { counted = refl; within = omega arith }) accepts_all-HonestWritable

handle_socket_writable-IsArmed_example : IsArmed after_event
handle_socket_writable-IsArmed_example =
    handle_socket_writable-IsArmed accepts_all sending after_event
      (record { armed = λ e. absurd (ground (arith, e)) }) after_event_run

file_and_bytes_stuck_example :
    handle_socket_writable accepts_all (record sending { sending_state = k_sending_file })
    ≡ some (record sending { sending_state = k_sending_file })
file_and_bytes_stuck_example =
    file_and_bytes_stuck accepts_all (record sending { sending_state = k_sending_file }) refl
      (omega arith)

quiet_owner-IsPolite : IsPolite quiet_owner
quiet_owner-IsPolite = record {
  on_conn = λ c. record { later = λ d e. ground (arith, e) };
  on_message = λ c. record { later = λ d e. ground (arith, e) };
  on_close = λ c. record { later = λ d e. ground (arith, e) };
}

-- The peer closes its end.
perform-Forward_example : Forward sending (perform quiet_owner (readable_op (got [])) sending)
perform-Forward_example =
    perform-Forward quiet_owner quiet_owner-IsPolite (readable_op (got [])) sending
