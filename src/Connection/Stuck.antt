-- ===== src/Connection/Stuck.antt =====
-- A state of a connection of flute/net/TcpConnection.cc that its code does not get out of.
use flute.Prelude.{◌≡◌, ◌≢◌, refl, ap, false, Option, none, some, ◌==◌, arith, if_either}
use flute.Buffer.{content_bytes_len}
use flute.ZeroCopier.{ZeroCopier, Globals, Answers}
use flute.Channel.{is_writing}
use flute.Connection.{Connection, k_sending_file}
use flute.Connection.Ready.{
  Writable, handle_socket_writable, send_from_buffer, send_from_file, send_with, finish_writing,
  may_send_buffer, is_idle,
}

send_with-pending :
    (z : Option ZeroCopier) (g : Globals) (a : Answers) (c : Connection)
    → (content_bytes_len c.output_buffer == 0) ≡ false
    → send_with z g a c ≡ c
unfolding send_with
send_with-pending none g a c h = refl
send_with-pending (some z) g a c h = simp h

-- Once bytes stand in the output buffer while a file is being sent, a writable event does nothing at
-- all: nothing is sent, the state is kept, and the channel goes on asking for the event.
pub file_and_bytes_stuck :
    (w : Writable) (c : Connection)
    → c.sending_state ≡ k_sending_file
    → content_bytes_len c.output_buffer ≢ 0
    → handle_socket_writable w c ≡ some c
unfolding handle_socket_writable send_from_buffer send_from_file finish_writing
file_and_bytes_stuck w c h k =
    if_either (λ r. r ≡ some c) (is_writing c.channel) _ (some c)
      (λ _. simp (
        ap may_send_buffer h,
        send_with-pending c.zero_copier w.globals w.answers c (ground (arith, k)),
        ap is_idle h,
      ))
      (λ _. refl)
