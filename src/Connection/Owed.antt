-- ===== src/Connection/Owed.antt =====
-- What a connection of flute/net/TcpConnection.cc still owes to its socket.
use flute.Prelude.{
  ℕ, ◌≡◌, refl, sym, ◌∙◌, ◌⊎◌, inl, inr, Option, none, some, List, [], ◌++◌, append-nil,
}
use flute.Buffer.{contents}
use flute.Buffer.Inv.{IsValid}
use flute.ZeroCopier.{ZeroCopier, send_one_chunk}
use flute.ZeroCopier.Stream.{GaveUp}
use flute.Connection.Ready.{Writable}
use flute.Connection.{Connection}
use flute.Connection.Socket.{on_socket, Quiet}
use flute.Connection.Chunks.{pending_file, IsSound}

abbrev pub pending_copier : Option ZeroCopier → List ℕ
pending_copier none = []
pending_copier (some z) = pending_file z

-- What the connection still owes: the output buffer, then the rest of the file.
abbrev pub pending : Connection → List ℕ
pending c = contents c.output_buffer ++ pending_copier c.zero_copier

abbrev pub SoundCopier : Option ZeroCopier → Type 0
SoundCopier none = Unit
SoundCopier (some z) = IsSound z

-- What an event leaves: the bytes on the socket and those pending, put together, are what they
-- were, except for a `rest` that is lost only where the copier gave up in its chunk.
pub record Owes (w : Writable) (c c' : Connection) : Type 0 where
  pub valid : IsValid c'.output_buffer
  pub sound : SoundCopier c'.zero_copier
  pub rest : List ℕ
  pub stream : on_socket c'.effects ++ (pending c' ++ rest) ≡ on_socket c.effects ++ pending c
  pub lost_by_copier :
      (rest ≡ [])
      ⊎ ((z : ZeroCopier) × (c.zero_copier ≡ some z)
          × GaveUp z (send_one_chunk w.globals z w.answers)
          × (c'.zero_copier ≡ none))

pub nothing_changed :
    (w : Writable) (c : Connection)
    → IsValid c.output_buffer
    → SoundCopier c.zero_copier
    → Owes w c c
nothing_changed w c v s = record {
  valid = v;
  sound = s;
  rest = [];
  stream = simp append-nil;
  lost_by_copier = inl refl;
}

-- A part of the event that moves bytes from the buffer to the socket, and then the rest of it.
pub moved-Owes :
    (w : Writable) (c d e : Connection)
    → d.zero_copier ≡ c.zero_copier
    → on_socket d.effects ++ pending d ≡ on_socket c.effects ++ pending c
    → Owes w d e
    → Owes w c e
moved-Owes w c d e same bytes k = record {
  valid = k.valid;
  sound = k.sound;
  rest = k.rest;
  stream = k.stream ∙ bytes;
  lost_by_copier = elim k.lost_by_copier [
    | inl n ↦ inl n
    | inr (z, copier, gone, left) ↦ inr (z, sym same ∙ copier, gone, left)
  ];
}

pub Owes-Quiet : (w : Writable) (c d e : Connection) → Owes w c d → Quiet d e → Owes w c e
Owes-Quiet w c d e k q = record {
  valid = rw q.output k.valid;
  sound = rw q.copier k.sound;
  rest = k.rest;
  stream = rw (q.output, q.copier, q.socket) k.stream;
  lost_by_copier = elim k.lost_by_copier [
    | inl n ↦ inl n
    | inr (z, copier, gone, left) ↦ inr (z, copier, gone, q.copier ∙ left)
  ];
}
