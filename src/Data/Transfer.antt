-- ===== src/Data/Transfer.antt =====
-- src/chopdata.c: `fill_buf`, `read_data`, `read_header` and `write_packet`.
pub mod Writing
pub mod Rounds
pub mod Whole
pub mod Filling
use chopserver.Base.{
  ℕ, zero, suc, ◌+◌, ◌-◌, ◌/◌, ◌%◌, ℤ, pos, negsuc, pos_part, neg, is_neg, ltb, ◌==◌, List, [], ◌∷◌,
  ◌||◌, Option, none, some, take, length, get_or, if◌then◌else◌,
}
use chopserver.Structs.{Ref, is_null, Buffer, Packet, header_len, cancel, einval, enomem}
use chopserver.Machine.{
  Socket, Io, done, failed, read_socket, write_socket, Conn, M, pure, gets, in_sock, undefined,
  division, set_client, set_packet, ◌>>=◌, ◌>>◌, unless_neg, ok,
}
use chopserver.Packet.Utility.{append_buffer, store_at, update_last, last_or}

-- `n` is how far the read got: `left` is never negative, since `inbuf` never passes `bufsize`.
unfoldable pub add_read : Buffer → Io (List ℕ) × Socket → ℤ × Buffer × Socket
add_read buffer (failed e, s) = (negsuc e, buffer, s)
add_read buffer (done bs, s) = (
  pos 0,
  record buffer { bytes = store_at buffer.inbuf bs buffer.bytes; inbuf = buffer.inbuf + length bs },
  s,
)

-- `s` is the socket behind the descriptor `input`.
unfoldable pub fill_buf : Ref → Buffer → (input : ℤ) → Socket → ℤ × Buffer × Socket
unfolding add_read
fill_buf ptr buffer input s =
    if is_null ptr || is_neg input
    then (neg einval, buffer, s)
    else if buffer.inbuf == buffer.bufsize
    then (pos 0, buffer, s)
    else add_read buffer (read_socket (buffer.bufsize - buffer.inbuf) s)

-- Both flags are set to CANCEL.
unfoldable pub mark_closed : M (Unit {0})
mark_closed = set_client λ cli. record cli { inc_flag = cancel; out_flag = cancel }

-- `append_buffer(pack, bufsize, &receive)` on the packet that is being received.
unfoldable pub append_received : ℤ → M ℤ
append_received bufsize c =
    let (r, pack, e) = append_buffer Ref.here c.pack bufsize c.env in
    ok r (record c { pack = pack; env = e })

-- What is done to `*receive`, the last segment.
unfoldable pub set_received : (Buffer → Buffer) → M (Unit {0})
set_received f = set_packet λ pack. record pack { data_section = update_last f pack.data_section }

abbrev pub no_buffer : Buffer
no_buffer = record { bytes = []; inbuf = 0; bufsize = 0 }

abbrev pub received : Conn → Buffer
received c = last_or no_buffer c.pack.data_section

-- `read` stores what it read at the start of the array, however much it is.
abbrev pub store_read : List ℕ → Buffer → Buffer
store_read bs buffer = record buffer { bytes = store_at 0 bs buffer.bytes }

abbrev pub smaller : ℕ → ℕ → ℕ
smaller bufsize remaining = if ltb remaining bufsize then remaining else bufsize

-- The end of a round: the checks of `bytes_read`, and the next round if it is `expected`.
unfoldable pub finish_round : ℕ → Io (List ℕ) → (ℕ → M ℤ) → M ℤ
finish_round expected (failed e) next = pure (negsuc e)
finish_round expected (done bs) next = do
  set_received (store_read bs)
  if length bs == expected
      then (do set_received (λ buffer. record buffer { inbuf = length bs }); next (length bs))
      else if length bs == 0
      then (do mark_closed; pure (neg 1))
      else pure (neg 1)

-- `rounds` is `buffers - i`.
unfoldable pub read_data_loop : (rounds remaining total : ℕ) → M ℤ
unfolding finish_round
read_data_loop zero remaining total = pure (pos total)
read_data_loop (suc rounds) remaining total = do
  window ← gets (λ c. c.cli.window)
  unless_neg (append_received (pos window)) (λ _. neg enomem)
      λ _. do
        receive ← gets received
        let expected = smaller receive.bufsize remaining
        r ← in_sock (read_socket expected)
        finish_round expected r λ n. read_data_loop rounds (remaining - n) (total + n)

-- How many buffers `remaining` bytes need.
abbrev pub buffers_for : ℕ → ℕ → ℕ
buffers_for remaining window = remaining / window + (if remaining % window == 0 then 0 else 1)

-- A division by a window of 0 is undefined.
unfoldable pub read_data : Ref → Ref → ℤ → M ℤ
unfolding read_data_loop
read_data cli pack remaining =
    if is_null cli || is_null pack || is_neg remaining
    then pure (neg einval)
    else if pos_part remaining == 0
    then pure (pos 0)
    else (do
      window ← gets (λ c. c.cli.window)
      if window == 0
          then undefined division
          else read_data_loop (buffers_for (pos_part remaining) window) (pos_part remaining) 0)

-- `memmove(pack, header, HEADER_LEN)`: the four bytes are the first four fields.
abbrev pub set_header : List ℕ → Packet → Packet
set_header bs pack = record pack {
  head = get_or bs 0 0;
  status = get_or bs 1 0;
  control1 = get_or bs 2 0;
  control2 = get_or bs 3 0;
}

unfoldable pub take_header : Io (List ℕ) → M ℤ
take_header (failed e) = pure (negsuc e)
take_header (done bs) =
    if length bs == header_len
    then (do set_packet (set_header bs); pure (pos 0))
    else if length bs == 0
    then (do mark_closed; pure (neg 1))
    else pure (neg 1)

unfoldable pub read_header : Ref → Ref → M ℤ
unfolding take_header
read_header cli pack =
    if is_null cli || is_null pack
    then pure (neg einval)
    else (do r ← in_sock (read_socket header_len); take_header r)

abbrev pub header_bytes : Packet → List ℕ
header_bytes pack = pack.head ∷ pack.status ∷ pack.control1 ∷ pack.control2 ∷ []

abbrev pub segment_bytes : Buffer → List ℕ
segment_bytes segment = take segment.inbuf segment.bytes

-- A write that is not taken whole ends the function.
unfoldable pub after_write : ℕ → Io ℕ → (ℕ → M ℤ) → M ℤ
after_write wanted (failed e) next = pure (negsuc e)
after_write wanted (done n) next = if n == wanted then next n else pure (neg 1)

unfoldable pub write_segments : List Buffer → ℕ → M ℤ
unfolding after_write
write_segments [] total = do set_client (λ cli. record cli { out_flag = 0 }); pure (pos total)
write_segments (segment ∷ next) total = do
  r ← in_sock (write_socket (segment_bytes segment))
  after_write segment.inbuf r λ n. write_segments next (total + n)

unfoldable pub write_packet : Ref → Option Packet → M ℤ
unfolding write_segments
write_packet cli none = pure (neg einval)
write_packet cli (some pack) = if is_null cli then pure (neg einval) else (do
  set_client (λ cli. record cli { out_flag = pack.status })
  r ← in_sock (write_socket (header_bytes pack))
  after_write header_len r λ _. write_segments pack.data_section 0)
