-- ===== src/Connection/Stream.antt =====
-- The byte stream of flute/net/TcpConnection.cc: what the writable events put on the socket, in order.
use flute.Prelude.{
  ℕ, ◌≡◌, refl, ap, ◌⊎◌, inl, inr, true, ◌&&◌, Option, none, some, List, [], ◌∷◌, ◌++◌, arith, take,
  drop, ◌==◌, if◌then◌else◌, Bool-cases, append-nil, append_assoc, take-append-drop, ◌>>=◌,
  if_either,
}
use flute.Buffer.{Buffer, contents, content_bytes_len}
use flute.Buffer.Inv.{IsValid}
use flute.Buffer.Laws.{retrieve-Leaves}
use flute.Channel.{is_writing}
use flute.ZeroCopier.{ZeroCopier, Chunk, has_finished, bytes_to_send, send_one_chunk}
use flute.ZeroCopier.Stream.{AtMost, Honest, ByOffset, GaveUp}
use flute.Connection.{Connection, Effect, wrote, logged_error, sent_chunk, k_sending_buffer}
use flute.Connection.Ready.{
  Writable, write_socket_from_buffer, transfer_sending_state, send_from_buffer, may_send_buffer,
  may_send_file, copy_chunk, send_with, send_from_file, finish_writing, handle_socket_writable,
}
use flute.Connection.Socket.{on_socket, on_socket-append, on_socket-snoc, finish_writing-Quiet}
use flute.Connection.Chunks.{pending_file, IsSound, Keeps, send_one_chunk-Keeps}
use flute.Connection.Owed.{
  pending_copier, SoundCopier, Owes, pending, nothing_changed, moved-Owes, Owes-Quiet,
}

-- `write` takes no more than the buffer holds, and no chunk more than was asked for.
pub record HonestWritable (c : Connection) (w : Writable) : Type 0 where
  pub write_le : AtMost (content_bytes_len c.output_buffer) w.accepted
  pub by_offset : ByOffset w.globals.copy_mode
  pub chunk_le :
      (z : ZeroCopier) → c.zero_copier ≡ some z → Honest (bytes_to_send w.globals z) w.answers

-- Writing from the buffer moves bytes from its front to the socket, and touches nothing else.
abbrev Wrote : Connection → Option Connection → Type 0
Wrote c r =
    (output : Buffer) × (effects : List Effect) × (r
      ≡ some (record c { output_buffer = output; effects = effects }))
    × IsValid output
    × (on_socket effects ++ contents output ≡ on_socket c.effects ++ contents c.output_buffer)

write_socket_from_buffer-Wrote :
    (accepted : Option ℕ) (c : Connection)
    → IsValid c.output_buffer
    → AtMost (content_bytes_len c.output_buffer) accepted
    → Wrote c (write_socket_from_buffer accepted c)
unfolding write_socket_from_buffer
write_socket_from_buffer-Wrote none c v h =
    elim (Bool-cases (content_bytes_len c.output_buffer == 0)) [
      | inl e ↦ (c.output_buffer, c.effects, rw e, v, refl)
      | inr e ↦ (
        c.output_buffer,
        c.effects ++ (logged_error ∷ []),
        rw e,
        v,
        rw on_socket-append (simp append-nil),
      )
    ]
write_socket_from_buffer-Wrote (some n) c v h =
    elim (Bool-cases (content_bytes_len c.output_buffer == 0)) [
      | inl e ↦ (c.output_buffer, c.effects, rw e, v, refl)
      | inr e ↦
          let (output, run, v', left) = retrieve-Leaves n v h in
          (
            output,
            c.effects ++ (wrote (take n (contents c.output_buffer)) ∷ []),
            rw (e, run),
            v',
            rw (on_socket-append, left)
                (simp (append-nil, append_assoc, take-append-drop n (contents c.output_buffer))),
          )
    ]

regroup : (a b p x y : List ℕ) → a ++ b ≡ x ++ y → a ++ (b ++ p) ≡ x ++ (y ++ p)
regroup a b p x y e = rw (← append_assoc a b p, e) (append_assoc x y p)

send_from_buffer-Owes :
    (c : Connection) (accepted : Option ℕ)
    → IsValid c.output_buffer
    → AtMost (content_bytes_len c.output_buffer) accepted
    → (c' : Connection) × (send_from_buffer accepted c ≡ some c')
      × IsValid c'.output_buffer
      × (on_socket c'.effects ++ pending c' ≡ on_socket c.effects ++ pending c)
      × (c'.zero_copier ≡ c.zero_copier)
unfolding send_from_buffer transfer_sending_state
send_from_buffer-Owes c accepted v h = elim (Bool-cases (may_send_buffer c.sending_state)) [
  | inr e ↦ (c, rw e, v, refl, refl)
  | inl e ↦
      let (output, effects, run, v', bytes) =
        write_socket_from_buffer-Wrote accepted (record c { sending_state = k_sending_buffer }) v
          h in
      (
        transfer_sending_state (record c {
          sending_state = k_sending_buffer;
          output_buffer = output;
          effects = effects;
        }),
        rw (e, run),
        v',
        regroup _ _ (pending_copier c.zero_copier) _ _ bytes,
        refl,
      )
]

-- A finished copier is dropped, and owed nothing.
settled : ZeroCopier → Option ZeroCopier
settled z = if has_finished z then none else some z

pending-settled : (z : ZeroCopier) → pending_copier (settled z) ≡ pending_file z
unfolding settled
pending-settled z = ground arith

settled-Sound : (z : ZeroCopier) → (has_finished z ≡ true) ⊎ IsSound z → SoundCopier (settled z)
unfolding settled
settled-Sound z (inl e) = rw e tt
settled-Sound z (inr s) = elim (Bool-cases (has_finished z)) [ inl e ↦ rw e tt | inr e ↦ rw e s ]

settled-none : (z : ZeroCopier) → has_finished z ≡ true → settled z ≡ none
unfolding settled
settled-none z e = rw e refl

chunk_stream :
    (s out handed file p rest : List ℕ)
    → out ≡ []
    → handed ++ (p ++ rest) ≡ file
    → (s ++ handed) ++ ((out ++ p) ++ rest) ≡ s ++ (out ++ file)
chunk_stream s out handed file p rest empty e = rw (empty, ← e) (append_assoc s handed (p ++ rest))

-- Nothing of the file is lost, or the copier has given up and is finished.
abbrev Left : Writable → ZeroCopier → List ℕ → Type 0
Left w z rest =
    ((rest ≡ []) × IsSound (send_one_chunk w.globals z w.answers).copier)
    ⊎ ((has_finished (send_one_chunk w.globals z w.answers).copier ≡ true)
        × GaveUp z (send_one_chunk w.globals z w.answers))

Left-Sound :
    (w : Writable) (z : ZeroCopier) (rest : List ℕ)
    → Left w z rest
    → (has_finished (send_one_chunk w.globals z w.answers).copier ≡ true)
      ⊎ IsSound (send_one_chunk w.globals z w.answers).copier
Left-Sound w z rest (inl (_, s)) = inr s
Left-Sound w z rest (inr (done, _)) = inl done

copy_chunk-Owes :
    (c : Connection) (w : Writable) (z : ZeroCopier) (rest : List ℕ)
    → IsValid c.output_buffer
    → contents c.output_buffer ≡ []
    → c.zero_copier ≡ some z
    → (send_one_chunk w.globals z w.answers).handed
        ++ (pending_file (send_one_chunk w.globals z w.answers).copier ++ rest)
      ≡ pending_file z
    → Left w z rest
    → Owes w c (copy_chunk w.globals w.answers c z)
unfolding copy_chunk transfer_sending_state settled
copy_chunk-Owes c w z rest v empty e kept left = record {
  valid = v;
  sound = settled-Sound chunk.copier (Left-Sound w z rest left);
  rest = rest;
  stream =
      rw (on_socket-snoc c.effects (sent_chunk chunk.handed), e, pending-settled chunk.copier)
        (chunk_stream (on_socket c.effects) (contents c.output_buffer) chunk.handed (pending_file z)
          (pending_file chunk.copier) rest empty kept);
  lost_by_copier = elim left [
    | inl (n, _) ↦ inl n
    | inr (done, gone) ↦ inr (z, e, gone, settled-none chunk.copier done)
  ];
}
  where
    chunk : Chunk
    chunk = send_one_chunk w.globals z w.answers

Keeps-split :
    (w : Writable) (before : List ℕ) (z : ZeroCopier)
    → Keeps before z (send_one_chunk w.globals z w.answers)
    → (rest : List ℕ) × ((send_one_chunk w.globals z w.answers).handed
          ++ (pending_file (send_one_chunk w.globals z w.answers).copier ++ rest)
        ≡ before)
      × Left w z rest
Keeps-split w before z (inl (kept, s)) = ([], rw append-nil kept, inl (refl, s))
Keeps-split w before z (inr (rest, done, lost, gone)) = (rest, rw done lost, inr (done, gone))

empty_contents : (b : Buffer) → content_bytes_len b ≡ 0 → contents b ≡ []
empty_contents b e = ap (λ n. take n (drop b.read_idx b.bytes)) e

send_with-Owes :
    (zc : Option ZeroCopier) (w : Writable) (c : Connection)
    → IsValid c.output_buffer
    → SoundCopier zc
    → ByOffset w.globals.copy_mode
    → ((z : ZeroCopier) → zc ≡ some z → Honest (bytes_to_send w.globals z) w.answers)
    → c.zero_copier ≡ zc
    → Owes w c (send_with zc w.globals w.answers c)
unfolding send_with
send_with-Owes none w c v s mode h e = nothing_changed w c v (rw e tt)
send_with-Owes (some z) w c v s mode h e =
    elim (Bool-cases ((content_bytes_len c.output_buffer == 0) && may_send_file c.sending_state)) [
      | inr b ↦ rw b (nothing_changed w c v (rw e s))
      | inl b ↦ rw b (
          let (rest, kept, left) =
            Keeps-split w (pending_file z) z
              (send_one_chunk-Keeps w.globals z w.answers mode (h z refl) s) in
          copy_chunk-Owes c w z rest v (empty_contents c.output_buffer (ground arith)) e kept left)
    ]

send_from_file-Owes :
    (c : Connection) (w : Writable)
    → IsValid c.output_buffer
    → SoundCopier c.zero_copier
    → ByOffset w.globals.copy_mode
    → ((z : ZeroCopier) → c.zero_copier ≡ some z → Honest (bytes_to_send w.globals z) w.answers)
    → Owes w c (send_from_file w.globals w.answers c)
unfolding send_from_file
send_from_file-Owes c w v s mode h = send_with-Owes c.zero_copier w c v s mode h refl

-- The event succeeds, and what it leaves is owed in the same order.
abbrev pub OwesAfter : Writable → Connection → Option Connection → Type 0
OwesAfter w c r = (c' : Connection) × (r ≡ some c') × Owes w c c'

send_and_finish-Owes :
    (c : Connection) (w : Writable)
    → IsValid c.output_buffer
    → SoundCopier c.zero_copier
    → HonestWritable c w
    → OwesAfter w c (
        send_from_buffer w.accepted c >>= λ c'.
        some (finish_writing (send_from_file w.globals w.answers c')))
send_and_finish-Owes c w v s h =
    let (c₁, run, v₁, bytes, same) = send_from_buffer-Owes c w.accepted v h.write_le in
    let o₂ = send_from_file-Owes c₁ w v₁ (rw same s) h.by_offset (rw same h.chunk_le) in
    let c₂ = send_from_file w.globals w.answers c₁ in
    (
      finish_writing c₂,
      rw run,
      Owes-Quiet w c c₂ (finish_writing c₂) (moved-Owes w c c₁ c₂ same bytes o₂)
          (finish_writing-Quiet c₂),
    )

-- Of a valid connection whose copier, if there is one, uses `sendfile` or `mmap`, and whose kernel takes
-- no more than it is given, a writable event succeeds, and what the socket has, what is pending and a
-- rest that was lost are, in this order, what the socket had and what was pending before. A rest is
-- lost only where the chunk failed, as the last of `k_max_trial` failures in a row, so that the
-- copier gave up and is gone.
pub handle_socket_writable-Owes :
    (c : Connection) (w : Writable)
    → IsValid c.output_buffer
    → SoundCopier c.zero_copier
    → HonestWritable c w
    → OwesAfter w c (handle_socket_writable w c)
unfolding handle_socket_writable
handle_socket_writable-Owes c w v s h =
    if_either (OwesAfter w c) (is_writing c.channel) _ (some c)
      (λ _. send_and_finish-Owes c w v s h) (λ _. (c, refl, nothing_changed w c v s))
