-- ===== src/Connection/Socket.antt =====
-- The bytes that a connection of flute/net/TcpConnection.cc has put on its socket.
use flute.Prelude.{
  ℕ, ◌≡◌, refl, sym, ◌∙◌, List, [], ◌∷◌, ◌++◌, not, if_either, append-nil, append_assoc,
}
use flute.Channel.{end_writing, is_writing}
use flute.Connection.{
  Connection, Effect, wrote, sent_chunk, queued, shutdown_write, write_complete_task, emit,
  with_channel, shutdown_in_reactor, is_disconnecting,
}
use flute.Connection.Ready.{
  notify_write_complete, shutdown_if_disconnecting, is_idle, finish_writing,
}

-- The bytes that one effect, and all of them, put on the socket.
abbrev pub bytes_of : Effect → List ℕ
bytes_of (wrote str) = str
bytes_of (sent_chunk str) = str
bytes_of _ = []

abbrev pub on_socket : List Effect → List ℕ
on_socket [] = []
on_socket (e ∷ effects) = bytes_of e ++ on_socket effects

pub on_socket-append : (xs ys : List Effect) → on_socket (xs ++ ys) ≡ on_socket xs ++ on_socket ys
on_socket-append [] ys = refl
on_socket-append (e ∷ xs) ys =
    rw (on_socket-append xs ys) (sym (append_assoc (bytes_of e) (on_socket xs) (on_socket ys)))

pub on_socket-snoc :
    (effects : List Effect) (e : Effect)
    → on_socket (effects ++ (e ∷ [])) ≡ on_socket effects ++ bytes_of e
on_socket-snoc effects e = rw on_socket-append (simp append-nil)

-- A change that leaves the bytes on the socket and those pending alone.
pub record Quiet (c c' : Connection) : Type 0 where
  pub output : c'.output_buffer ≡ c.output_buffer
  pub copier : c'.zero_copier ≡ c.zero_copier
  pub socket : on_socket c'.effects ≡ on_socket c.effects

pub Quiet-refl : (c : Connection) → Quiet c c
Quiet-refl c = record { output = refl; copier = refl; socket = refl }

pub Quiet-trans : {c d e : Connection} → Quiet c d → Quiet d e → Quiet c e
Quiet-trans h k = record {
  output = k.output ∙ h.output;
  copier = k.copier ∙ h.copier;
  socket = k.socket ∙ h.socket;
}

pub emit-Quiet : (c : Connection) (e : Effect) → bytes_of e ≡ [] → Quiet c (emit e c)
emit-Quiet c e k = record {
  output = refl;
  copier = refl;
  socket = rw (on_socket-snoc c.effects e, k, append-nil);
}

end_writing-Quiet : (c : Connection) → Quiet c (with_channel end_writing c)
end_writing-Quiet c = record {
  output = refl;
  copier = refl;
  socket = rw on_socket-append (simp append-nil);
}

notify-Quiet : (c : Connection) → Quiet c (notify_write_complete c)
unfolding notify_write_complete
notify-Quiet c =
    if_either (Quiet c) c.write_complete_callback _ c
      (λ _. emit-Quiet c (queued write_complete_task) refl) (λ _. Quiet-refl c)

shutdown_in_reactor-Quiet : (c : Connection) → Quiet c (shutdown_in_reactor c)
unfolding shutdown_in_reactor
shutdown_in_reactor-Quiet c =
    if_either (Quiet c) (not (is_writing c.channel)) _ c (λ _. emit-Quiet c shutdown_write refl)
      (λ _. Quiet-refl c)

finish_shutdown-Quiet : (c : Connection) → Quiet c (shutdown_if_disconnecting c)
unfolding shutdown_if_disconnecting
finish_shutdown-Quiet c =
    if_either (Quiet c) (is_disconnecting c.conn_state) _ c (λ _. shutdown_in_reactor-Quiet c)
      (λ _. Quiet-refl c)

pub finished-Quiet :
    (c : Connection)
    → Quiet c (shutdown_if_disconnecting (notify_write_complete (with_channel end_writing c)))
finished-Quiet c =
    Quiet-trans (end_writing-Quiet c)
      (Quiet-trans (notify-Quiet (with_channel end_writing c)) (finish_shutdown-Quiet _))

pub finish_writing-Quiet : (c : Connection) → Quiet c (finish_writing c)
unfolding finish_writing
finish_writing-Quiet c =
    if_either (Quiet c) (is_idle c.sending_state) _ c (λ _. finished-Quiet c) (λ _. Quiet-refl c)
