-- ===== src/Packet/Utility.antt =====
-- src/choppacket.c, the packet utility functions.
pub mod Style
use chopserver.Base.{
  ℕ, drop-nil, ◌≡◌, ◌+◌, ◌*◌, ◌^◌, ℤ, pos, pos_part, neg, is_neg, ltb, List, [], ◌∷◌, ◌++◌, ◌||◌,
  Option, none, some, take, drop, length, if◌then◌else◌,
}
use mathlib.Core.List.{append-nil}
use chopserver.Structs.{Ref, is_null, Buffer, Packet, einval}
use chopserver.Env.{Env}
use chopserver.Memory.{Init, made, refused, init_buffer_struct}

unfoldable pub assemble_header : Ref → Packet → (head status control1 control2 : ℕ) → ℤ × Packet
assemble_header ptr pack head status control1 control2 =
    if is_null ptr then (neg einval, pack) else (
      pos 0,
      record pack { head = head; status = status; control1 = control1; control2 = control2 },
    )

-- `memmove` of bytes to an offset of what has been stored.
abbrev pub store_at : ℕ → List ℕ → List ℕ → List ℕ
store_at offset bs old = take offset old ++ (bs ++ drop (offset + length bs) old)

-- Bytes that are stored in a new array.
pub store_at_start : (bs : List ℕ) → store_at 0 bs [] ≡ bs
store_at_start bs = rw (drop-nil (0 + length bs)) (append-nil bs)

-- `text` is NULL, or an array of at least `len` bytes.
unfoldable pub assemble_body : Ref → Buffer → Option (List ℕ) → ℤ → ℤ × Buffer
assemble_body ptr buffer none len = (neg einval, buffer)
assemble_body ptr buffer (some text) len =
    if is_null ptr || is_neg len
    then (neg einval, buffer)
    else if ltb buffer.bufsize (pos_part len)
    then (neg 1, buffer)
    else (
      pos 0,
      record buffer {
        bytes = store_at 0 (take (pos_part len) text) buffer.bytes;
        inbuf = pos_part len;
      },
    )

-- The walk to the last segment, and the link of a new one behind it.
unfoldable pub link_at_end : List Buffer → Buffer → List Buffer
link_at_end [] new = new ∷ []
link_at_end (cur ∷ next) new = cur ∷ link_at_end next new

-- The two ways in which a buffer is added, by the result of `init_buffer_struct`.
unfoldable pub add_segment : Packet → Init Buffer × Env → ℤ × Packet × Env
unfolding link_at_end
add_segment pack (refused code, e) = (neg 1, pack, e)
add_segment pack (made new, e) = (
  pos 0,
  record pack { data_section = link_at_end pack.data_section new; datalen = pack.datalen + 1 },
  e,
)

-- On success `*out` is the last segment of the packet.
unfoldable pub append_buffer : Ref → Packet → ℤ → Env → ℤ × Packet × Env
unfolding add_segment
append_buffer ptr pack bufsize e =
    if is_null ptr || is_neg bufsize
    then (neg einval, pack, e)
    else add_segment pack (init_buffer_struct Ref.here bufsize e)

-- What is done through `*out`: the last segment is changed.
abbrev pub update_last : (Buffer → Buffer) → List Buffer → List Buffer
update_last f [] = []
update_last f (b ∷ []) = f b ∷ []
update_last f (b ∷ c ∷ bs) = b ∷ update_last f (c ∷ bs)

abbrev pub last_or : Buffer → List Buffer → Buffer
last_or d [] = d
last_or d (b ∷ bs) = last_or b bs

-- The value of the `int` whose bytes, lowest first, are the four header bytes; as the bit
-- pattern, below 2 ^ 32.
unfoldable pub packet_style : Option Packet → ℕ
packet_style none = 0
packet_style (some pack) =
    pack.head + 2 ^ 8 * pack.status + 2 ^ 16 * pack.control1 + 2 ^ 24 * pack.control2
