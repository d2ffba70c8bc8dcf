-- ===== src/Packet/Sending.antt =====
-- src/choppacket.c, the sending functions. The packet that is sent is a value of its own; the one
-- that is being received is not touched.
pub mod Exact
use chopserver.Base.{
  ℕ, zero, suc, ◌/◌, ◌%◌, ℤ, pos, neg, is_neg, List, [], ◌∷◌, ◌||◌, Option, none, some,
  if◌then◌else◌,
}
use chopserver.Structs.{Ref, is_null, Packet, einval, enomem}
use chopserver.Memory.{Init, made, refused, init_packet_struct, destroy_packet_struct}
use chopserver.Machine.{M, pure, in_env, ◌>>=◌, unless_neg}
use chopserver.Packet.Utility.{assemble_header, assemble_body, append_buffer, update_last, last_or}
use chopserver.Data.Transfer.{write_packet, no_buffer}

-- `destroy_packet_struct(&out)`
unfoldable pub destroy : Packet → M ℤ
destroy out = in_env λ e. let (r, _, e') = destroy_packet_struct Ref.here (some out) e in (r, e')

-- `init_packet_struct(&out)` and the header, and then the rest with the packet; the codes are
-- what is returned where one of the two fails.
unfoldable pub begin :
    Init Packet
    → (no_packet no_header : ℤ) → (head status control1 control2 : ℕ) → (Packet → M ℤ)
    → M ℤ
begin (refused code) no_packet no_header head status control1 control2 rest = pure no_packet
begin (made new) no_packet no_header head status control1 control2 rest =
    let (r, out) = assemble_header Ref.here new head status control1 control2 in
    if is_neg r then pure no_header else rest out

unfoldable pub write_dataless : Ref → (head status control1 control2 : ℕ) → M ℤ
unfolding begin destroy
write_dataless cli head status control1 control2 = if is_null cli then pure (neg einval) else (do
  out ← in_env (init_packet_struct Ref.here)
  begin out (neg 1) (neg 1) head status control1 control2 λ out.
      unless_neg (write_packet cli (some out)) (λ r. r)
        λ ret. unless_neg (destroy out) (λ _. neg 1) λ _. pure ret)

-- From the data segment on: `len` bytes of `text`.
unfoldable pub finish_body : Ref → Option (List ℕ) → ℤ → ℤ × Packet → M ℤ
unfolding destroy
finish_body cli text len (appended, out) =
    if is_neg appended
    then pure (neg 1)
    else let (r, segment) = assemble_body Ref.here (last_or no_buffer out.data_section) text len in
      let out' = record out { data_section = update_last (λ _. segment) out.data_section } in
      if is_neg r
      then pure (neg 1)
      else (unless_neg (write_packet cli (some out')) (λ _. neg 1)
          λ _. unless_neg (destroy out') (λ _. neg 1) λ _. pure (pos 0))

unfoldable pub send_body : Ref → Option (List ℕ) → ℤ → Packet → M ℤ
unfolding finish_body
send_body cli text len out = do
  appended ← in_env (λ e. let (r, out', e') = append_buffer Ref.here out len e in ((r, out'), e'))
  finish_body cli text len appended

unfoldable pub write_datapack :
    Ref → (head status control1 control2 : ℕ) → Option (List ℕ) → ℤ → M ℤ
unfolding begin send_body
write_datapack cli head status control1 control2 none buflen = pure (neg einval)
write_datapack cli head status control1 control2 (some buf) buflen =
    if is_null cli || is_neg buflen then pure (neg einval) else (do
      out ← in_env (init_packet_struct Ref.here)
      begin out (neg enomem) (neg einval) head status control1 control2
          (send_body cli (some buf) buflen))

-- The bytes of an unsigned long, lowest first.
unfoldable pub word_bytes : (count : ℕ) → ℕ → List ℕ
word_bytes zero value = []
word_bytes (suc count) value = value % 256 ∷ word_bytes count (value / 256)

-- `sizeof(unsigned long int)`
abbrev pub word_size : ℕ
word_size = 8

-- The header bytes are unsigned, so the tests `head < 0` and so on never pass.
unfoldable pub write_wordpack : Ref → (head status control1 control2 : ℕ) → (value : ℕ) → M ℤ
unfolding begin send_body word_bytes
write_wordpack cli head status control1 control2 value =
    if is_null cli then pure (neg einval) else (do
      out ← in_env (init_packet_struct Ref.here)
      begin out (neg 1) (neg 1) head status control1 control2
          (send_body cli (some (word_bytes word_size value)) (pos word_size)))
