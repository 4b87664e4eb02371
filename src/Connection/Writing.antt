-- ===== src/Connection/Writing.antt =====
-- When a connection of flute/net/TcpConnection.cc waits for its socket to become writable.
use flute.Prelude.{
  ℕ, ◌+◌, ◌≤◌, ◌<◌, ◌≡◌, ◌≢◌, refl, ap, ◌∙◌, subst, inl, inr, true, false, not, ◌&&◌, Option, none,
  some, List, ◌++◌, arith, length, ◌==◌, lt→ltb, Bool-cases, >>=-eq-some, if_either, append-nil,
}
use mathlib.Core.Option.{some-injective}
use flute.Buffer.{contents, content_bytes_len, max_size}
use flute.Buffer.Inv.{IsValid}
use flute.Buffer.Laws.{append-Leaves}
use flute.Channel.{is_writing}
use flute.ZeroCopier.{ZeroCopier, Globals, Answers}
use flute.Connection.{
  Connection, k_disconnected, k_sending_buffer, is_disconnected, send_bytes_in_reactor,
  buffer_bytes, watch_writable, notify_highwater, queued, highwater_mark_task,
}
use flute.Connection.Ready.{
  Writable, copier_busy, is_idle, may_send_buffer, may_send_file, write_socket_from_buffer,
  transfer_from, transfer_sending_state, send_from_buffer, copy_chunk, send_with, send_from_file,
  finish_writing, handle_socket_writable,
}
use flute.Connection.Socket.{
  on_socket, on_socket-append, Quiet, emit-Quiet, Quiet-refl, finished-Quiet,
}

-- While anything is left to send, the poller watches for a writable socket.
pub record IsArmed (c : Connection) : Type 0 where
  pub armed :
      is_writing c.channel ≡ false
      → (content_bytes_len c.output_buffer ≡ 0) × (copier_busy c.zero_copier ≡ false)

-- Where nothing is being sent, nothing is left.
abbrev EmptyBuffer : Connection → Type 0
EmptyBuffer c = is_idle c.sending_state ≡ true → content_bytes_len c.output_buffer ≡ 0

abbrev NothingLeft : Connection → Type 0
NothingLeft c =
    is_idle c.sending_state ≡ true
    → (content_bytes_len c.output_buffer ≡ 0) × (copier_busy c.zero_copier ≡ false)

transferred :
    (c : Connection) → c.sending_state ≡ k_sending_buffer → EmptyBuffer (transfer_sending_state c)
unfolding transfer_sending_state transfer_from
transferred c s = ground arith

sending_state-write_socket :
    (accepted : Option ℕ) (c : Connection) {c' : Connection}
    → write_socket_from_buffer accepted c ≡ some c'
    → (c'.sending_state ≡ c.sending_state)
      × (c'.channel ≡ c.channel)
      × (c'.zero_copier ≡ c.zero_copier)
unfolding write_socket_from_buffer
sending_state-write_socket none c e = ground arith
sending_state-write_socket (some n) c e = ground arith

send_from_buffer-EmptyBuffer :
    (accepted : Option ℕ) (c : Connection) {c' : Connection}
    → send_from_buffer accepted c ≡ some c'
    → EmptyBuffer c' × (c'.channel ≡ c.channel) × (c'.zero_copier ≡ c.zero_copier)
unfolding send_from_buffer transfer_sending_state
send_from_buffer-EmptyBuffer accepted c {c'} e =
    elim (Bool-cases (may_send_buffer c.sending_state)) [
      | inr b ↦ ground arith
      | inl b ↦
          let (c₁, wrote, same) = >>=-eq-some _ _ (rw b at e) in
          let kept = sending_state-write_socket accepted _ wrote in
          subst (λ d. EmptyBuffer d × (d.channel ≡ c.channel) × (d.zero_copier ≡ c.zero_copier))
            (some-injective _ _ same) (transferred c₁ kept.0, kept.1, kept.2)
    ]

copy_chunk-NothingLeft :
    (g : Globals) (a : Answers) (c : Connection) (z : ZeroCopier)
    → content_bytes_len c.output_buffer ≡ 0
    → NothingLeft (copy_chunk g a c z) × ((copy_chunk g a c z).channel ≡ c.channel)
unfolding copy_chunk transfer_sending_state transfer_from
copy_chunk-NothingLeft g a c z e = (λ idle. ground arith, refl)

send_with-NothingLeft :
    (zc : Option ZeroCopier) (g : Globals) (a : Answers) (c : Connection)
    → c.zero_copier ≡ zc
    → EmptyBuffer c
    → NothingLeft (send_with zc g a c) × ((send_with zc g a c).channel ≡ c.channel)
unfolding send_with
send_with-NothingLeft none g a c e h = (λ idle. (h idle, rw e), refl)
send_with-NothingLeft (some z) g a c e h =
    if_either (λ c'. NothingLeft c' × (c'.channel ≡ c.channel))
      ((content_bytes_len c.output_buffer == 0) && may_send_file c.sending_state) _ c
      (λ b. copy_chunk-NothingLeft g a c z (ground arith))
      (λ b. (λ idle. absurd (ground (arith, h idle)), refl))

finish_writing-IsArmed :
    (c : Connection) → is_writing c.channel ≡ true → NothingLeft c → IsArmed (finish_writing c)
unfolding finish_writing
finish_writing-IsArmed c w h =
    if_either IsArmed (is_idle c.sending_state) _ c
      (λ b.
        let q = finished-Quiet c in
        record { armed = λ _. (rw q.output (h b).0, rw q.copier (h b).1) })
      (λ b. record { armed = λ off. absurd (ground arith) })

-- A writable event stops the watch only when the buffer is empty and no copier is at work, so no
-- bytes are left behind.
pub handle_socket_writable-IsArmed :
    (w : Writable) (c c' : Connection)
    → IsArmed c
    → handle_socket_writable w c ≡ some c'
    → IsArmed c'
unfolding handle_socket_writable send_from_file
handle_socket_writable-IsArmed w c c' a e = elim (Bool-cases (is_writing c.channel)) [
  | inr b ↦ subst IsArmed (some-injective c c' (simp b at e)) a
  | inl b ↦
      let (c₁, run, rest) = >>=-eq-some (send_from_buffer w.accepted c) _ (simp b at e) in
      let (empty, ch, z) = send_from_buffer-EmptyBuffer w.accepted c run in
      let (left, ch') = send_with-NothingLeft c₁.zero_copier w.globals w.answers c₁ refl empty in
      subst IsArmed (some-injective _ c' rest)
        (finish_writing-IsArmed _ (ap is_writing (ch' ∙ ch) ∙ b) left)
]

watch_writable-Quiet : (c : Connection) → Quiet c (watch_writable c)
unfolding watch_writable
watch_writable-Quiet c =
    if_either (Quiet c) (not (is_writing c.channel)) _ c
      (λ _. record { output = refl; copier = refl; socket = rw on_socket-append (simp append-nil) })
      (λ _. Quiet-refl c)

watch_writable-on : (c : Connection) → is_writing (watch_writable c).channel ≡ true
unfolding watch_writable
watch_writable-on c =
    if_either (λ d. is_writing d.channel ≡ true) (not (is_writing c.channel)) _ c (λ _. refl)
      (λ b. ground arith)

notify_highwater-Quiet : (c : Connection) (n : ℕ) → Quiet c (notify_highwater c n)
notify_highwater-Quiet c n =
    if_either (Quiet c) _ _ c (λ _. emit-Quiet c (queued (highwater_mark_task _)) refl)
      (λ _. Quiet-refl c)

-- Bytes sent on a connection that is not closed go behind the output buffer's content, and the
-- poller is made to watch for a writable socket; nothing is written at once.
pub send_bytes_in_reactor-content :
    (c : Connection) (str : List ℕ)
    → IsValid c.output_buffer
    → c.output_buffer.write_idx + length str ≤ max_size
    → c.conn_state ≢ k_disconnected
    → 0 < length str
    → (c' : Connection) × (send_bytes_in_reactor c str ≡ some c')
      × IsValid c'.output_buffer
      × (contents c'.output_buffer ≡ contents c.output_buffer ++ str)
      × (c'.zero_copier ≡ c.zero_copier)
      × (on_socket c'.effects ≡ on_socket c.effects)
      × (is_writing c'.channel ≡ true)
unfolding send_bytes_in_reactor buffer_bytes
send_bytes_in_reactor-content c str v fits open_state some_bytes =
    let (output, run, v', bytes) = append-Leaves str v fits in
    let c₁ = record (notify_highwater c (length str)) { output_buffer = output } in
    let n = notify_highwater-Quiet c (length str) in
    let q = watch_writable-Quiet c₁ in
    (
      watch_writable c₁,
      rw (still_open, lt→ltb 0 (length str) some_bytes, run),
      rw q.output v',
      rw q.output bytes,
      q.copier ∙ n.copier,
      q.socket ∙ n.socket,
      watch_writable-on c₁,
    )
  where
    still_open : is_disconnected c.conn_state ≡ false
    still_open = ground arith
