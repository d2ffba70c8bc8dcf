-- ===== src/Data/Transfer/Writing.antt =====
-- `write_packet` on a socket that takes every write whole: what is sent, and what is returned.

use mathlib.Core.List.{append-nil, append_assoc}
use chopserver.Base.{
  ℕ, ◌+◌, ◌≤◌, ◌≡◌, pos, List, [], ◌∷◌, ◌++◌, some, arith, length, length-take, ◌==◌, true,
}
use chopserver.Structs.{Ref, Buffer, Packet}
use chopserver.Machine.{Socket, write_by, write_socket, Conn, ok, ◌>>=◌, done}
use chopserver.Data.Transfer.{
  header_bytes, segment_bytes, after_write, write_segments, write_packet,
}

-- No segment claims more bytes than were stored in it.
abbrev pub AreFilled : List Buffer → Type 0
AreFilled [] = Unit
AreFilled (b ∷ bs) = (b.inbuf ≤ length b.bytes) × AreFilled bs

-- The bytes of a data section, and how many they are.
abbrev pub payload : List Buffer → List ℕ
payload [] = []
payload (b ∷ bs) = segment_bytes b ++ payload bs

abbrev pub payload_len : List Buffer → ℕ
payload_len [] = 0
payload_len (b ∷ bs) = b.inbuf + payload_len bs

-- The connection after `bs` were sent and the outgoing flag set.
abbrev pub after_sending : Conn → ℕ → List ℕ → Conn
after_sending c flag bs = record c {
  cli = record c.cli { out_flag = flag };
  sock = record c.sock { sent = c.sock.sent ++ bs };
}

-- One write that is taken whole.
write_whole :
    (bs : List ℕ) (s : Socket)
    → s.accepts ≡ []
    → write_socket bs s ≡ (done (length bs), record s { sent = s.sent ++ bs })
unfolding write_socket write_by
write_whole bs s e = rw (e, write_by)

write_segments-ok :
    (segments : List Buffer) (total : ℕ) (c : Conn)
    → c.sock.accepts ≡ []
    → AreFilled segments
    → write_segments segments total c
      ≡ ok (pos (total + payload_len segments)) (after_sending c 0 (payload segments))
unfolding write_segments ◌>>=◌
write_segments-ok [] total c e filled = ground (arith, append-nil c.sock.sent)
write_segments-ok (b ∷ bs) total c e filled =
    let full : length (segment_bytes b) ≡ b.inbuf = omega (arith, length-take b.inbuf b.bytes) in
    let same : (length (segment_bytes b) == b.inbuf) ≡ true = ground arith in
    let c' = record c { sock = record c.sock { sent = c.sock.sent ++ segment_bytes b } } in
    rw (write_whole (segment_bytes b) c.sock e, after_write, same)
      (rw (write_segments-ok bs (total + length (segment_bytes b)) c' e filled.1)
        (ground (arith, append_assoc c.sock.sent (segment_bytes b) (payload bs))))

-- On a socket that takes every write whole, a packet of which every segment holds at least
-- `inbuf` bytes goes out as its four header bytes and its data section, and `write_packet`
-- returns the length of the data section with the outgoing flag cleared.
pub write_packet-ok :
    (p : Packet) (c : Conn)
    → c.sock.accepts ≡ []
    → AreFilled p.data_section
    → write_packet Ref.here (some p) c
      ≡ ok
          (pos (payload_len p.data_section))
          (after_sending c 0 (header_bytes p ++ payload p.data_section))
unfolding write_packet ◌>>=◌
write_packet-ok p c e filled =
    let c' = after_sending c p.status (header_bytes p) in
    rw (write_whole (header_bytes p) c.sock e) (
      rw (write_segments-ok p.data_section 0 c' e filled)
        (ground (arith, append_assoc c.sock.sent (header_bytes p) (payload p.data_section))))
