-- ===== src/Packet/Sending/Exact.antt =====
-- The sending functions where memory is to be had and the socket takes every write whole: what
-- goes out, what is returned, and that every block is given back.
use chopserver.Base.{
  ℕ, zero, suc, ◌+◌, ◌/◌, ◌≤◌, ◌<◌, ◌≡◌, refl, ap, pos, List, [], ◌∷◌, ◌++◌, some, arith, length,
  take, take_all, ltb, length-take, false,
}
use mathlib.Core.List.{append-nil}
use chopserver.Structs.{Ref, Buffer, Packet}
use chopserver.Env.{free}
use chopserver.Env.{malloc-ok}
use chopserver.Memory.{init_buffer_struct, init_packet_struct, destroy_packet_struct}
use chopserver.Machine.{Conn, ok, unless_neg, ◌>>=◌}
use chopserver.Packet.Utility.{assemble_header, assemble_body, append_buffer, store_at_start}
use chopserver.Data.Transfer.Writing.{write_packet-ok}
use chopserver.Packet.Sending.{
  begin, write_dataless, send_body, write_datapack, word_bytes, write_wordpack,
}

-- Every `malloc` succeeds, and every `write` is taken whole.
pub record IsQuiet (c : Conn) : Type 0 where
  pub memory : c.env.mallocs ≡ []
  pub writes : c.sock.accepts ≡ []

-- The connection after `bs` were sent with `n` blocks of memory, all given back.
abbrev pub after_call : Conn → ℕ → List ℕ → Conn
after_call c n bs = record c {
  cli = record c.cli { out_flag = 0 };
  sock = record c.sock { sent = c.sock.sent ++ bs };
  env = record c.env { allocated = c.env.allocated + n; freed = c.env.freed + n };
}

abbrev dataless : (head status control1 control2 : ℕ) → Packet
dataless head status control1 control2 = record {
  head = head;
  status = status;
  control1 = control1;
  control2 = control2;
  data_section = [];
  datalen = 0;
}

-- Where every `malloc` succeeds and every write is taken whole, `write_dataless` returns 0: the
-- four header bytes go out in order, the packet's block is given back, and the outgoing flag is
-- cleared.
pub write_dataless-ok :
    (head status control1 control2 : ℕ) (c : Conn)
    → IsQuiet c
    → write_dataless Ref.here head status control1 control2 c
      ≡ ok (pos 0) (after_call c 1 (head ∷ status ∷ control1 ∷ control2 ∷ []))
unfolding write_dataless begin init_packet_struct ◌>>=◌ assemble_header unless_neg
    destroy_packet_struct free
write_dataless-ok head status control1 control2 c q =
    let e' = record c.env { allocated = c.env.allocated + 1 } in
    let c' = record c { env = e' } in
    rw (malloc-ok c.env q.memory)
      (rw (write_packet-ok (dataless head status control1 control2) c' q.writes tt) refl)

-- One segment, as `append_buffer` adds it and `assemble_body` fills it.
abbrev fresh_segment : ℕ → Buffer
fresh_segment len = record { bytes = []; inbuf = 0; bufsize = len }

abbrev full_segment : List ℕ → ℕ → Buffer
full_segment text len = record { bytes = take len text; inbuf = len; bufsize = len }

assemble_body-fits :
    (len : ℕ) (text : List ℕ)
    → assemble_body Ref.here (fresh_segment len) (some text) (pos len)
      ≡ (pos 0, full_segment text len)
unfolding assemble_body
assemble_body-fits len text =
    let fits : ltb len len ≡ false = ground arith in rw fits (rw (store_at_start (take len text)))

take-take : (len : ℕ) (text : List ℕ) → take len (take len text) ≡ take len text
take-take len text = take_all len (take len text) (omega (arith, length-take len text))

-- From the data segment on, three blocks are given back: the segment's two and the packet.
send_body-ok :
    (head status control1 control2 k : ℕ) (text : List ℕ) (c : Conn)
    → suc k ≤ length text
    → IsQuiet c
    → send_body Ref.here (some text) (pos (suc k)) (dataless head status control1 control2) c
      ≡ ok (pos 0) (record c {
        cli = record c.cli { out_flag = 0 };
        sock = record c.sock {
          sent = c.sock.sent ++ (head ∷ status ∷ control1 ∷ control2 ∷ take (suc k) text);
        };
        env = record c.env { allocated = c.env.allocated + 2; freed = c.env.freed + 3 };
      })
unfolding send_body append_buffer init_buffer_struct destroy_packet_struct ◌>>=◌ unless_neg free
send_body-ok head status control1 control2 k text c fits q =
    let e' = record c.env { allocated = c.env.allocated + 1 } in
    let c' = record c { env = record c.env { allocated = c.env.allocated + 1 + 1 } } in
    let out = record (dataless head status control1 control2) {
      data_section = full_segment text (suc k) ∷ [];
      datalen = 1;
    } in
    rw (malloc-ok c.env q.memory, malloc-ok e' q.memory)
      (rw (assemble_body-fits (suc k) text) (
        rw (write_packet-ok out c' q.writes (omega (arith, length-take (suc k) text), tt)) (
          rw (append-nil (take (suc k) (take (suc k) text)), take-take (suc k) text)
            (ground arith))))

-- Where every `malloc` succeeds and every write is taken whole, `write_datapack` with a positive
-- `buflen` that the buffer holds returns 0: the header goes out, behind it the first `buflen`
-- bytes of the buffer, and the three blocks that it took are given back.
pub write_datapack-ok :
    (head status control1 control2 buflen : ℕ) (buf : List ℕ) (c : Conn)
    → 0 < buflen
    → buflen ≤ length buf
    → IsQuiet c
    → write_datapack Ref.here head status control1 control2 (some buf) (pos buflen) c
      ≡ ok (pos 0) (after_call c 3 (head ∷ status ∷ control1 ∷ control2 ∷ take buflen buf))
unfolding write_datapack begin init_packet_struct ◌>>=◌ assemble_header
write_datapack-ok head status control1 control2 zero buf c some_text fits q = absurd (omega arith)
write_datapack-ok head status control1 control2 (suc k) buf c some_text fits q =
    let e' = record c.env { allocated = c.env.allocated + 1 } in
    let c' = record c { env = e' } in
    rw (malloc-ok c.env q.memory) (
      rw
        (send_body-ok head status control1 control2 k buf c' fits
          (record { memory = q.memory; writes = q.writes }))
        (ground arith))

pub length-word_bytes : (count value : ℕ) → length (word_bytes count value) ≡ count
unfolding word_bytes
length-word_bytes zero value = refl
length-word_bytes (suc count) value = ap suc (length-word_bytes count (value / 256))

-- Where every `malloc` succeeds and every write is taken whole, `write_wordpack` returns 0: the
-- header goes out, behind it the eight bytes of the value, lowest first, and the three blocks
-- that it took are given back.
pub write_wordpack-ok :
    (head status control1 control2 value : ℕ) (c : Conn)
    → IsQuiet c
    → write_wordpack Ref.here head status control1 control2 value c
      ≡ ok (pos 0) (after_call c 3 (head ∷ status ∷ control1 ∷ control2 ∷ word_bytes 8 value))
unfolding write_wordpack begin init_packet_struct ◌>>=◌ assemble_header
write_wordpack-ok head status control1 control2 value c q =
    let e' = record c.env { allocated = c.env.allocated + 1 } in
    let c' = record c { env = e' } in
    let len = length-word_bytes 8 value in
    rw (malloc-ok c.env q.memory) (
      rw
        (send_body-ok head status control1 control2 7 (word_bytes 8 value) c' (omega arith)
          (record { memory = q.memory; writes = q.writes }))
        (rw (take_all 8 (word_bytes 8 value) (omega arith)) (ground arith)))
