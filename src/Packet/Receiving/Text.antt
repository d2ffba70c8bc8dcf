-- ===== src/Packet/Receiving/Text.antt =====
-- src/choppacket.c: `read_long_text`, which runs until it finds the end of the text and so takes
-- fuel, and `parse_text`.
use chopserver.Base.{
  ℕ, zero, suc, ◌+◌, ◌*◌, ◌^◌, ℤ, pos, negsuc, pos_part, neg, is_neg, ltb, ◌==◌, List, ◌&&◌, ◌||◌,
  Option, none, some, length, if◌then◌else◌,
}
use chopserver.Structs.{Ref, is_null, start_text, end_text, acknowledge, einval, enospc}
use chopserver.Machine.{
  weight, Io, done, failed, read_socket, M, pure, gets, in_sock, undefined, scan, overflow,
  exhausted, ◌>>=◌, ◌>>◌, unless_neg,
}
use chopserver.Data.Transfer.{append_received, set_received, store_read, read_data}
use chopserver.Data.Scan.{buf_contains_symbol}
use chopserver.Packet.Sending.{write_dataless}

-- The end of a round of `read_long_text` that has read `bs`: where `stop_len` is negative the
-- text goes on. The sum of the lengths is an `int`, and its overflow is undefined.
unfoldable pub finish_long_round : List ℕ → (total : ℕ) → Option ℤ → (ℕ → M ℤ) → M ℤ
finish_long_round bs total none next = undefined scan
finish_long_round bs total (some stop_len) next =
    if ltb (total + length bs) (2 ^ 31)
    then (if is_neg stop_len
        then (do
          set_received (λ buffer. record buffer { inbuf = length bs })
          next (total + length bs))
        else (do
          set_received (λ buffer. record buffer { inbuf = pos_part stop_len })
          pure (pos (total + length bs))))
    else undefined overflow

unfoldable pub long_round : (total : ℕ) → Io (List ℕ) → (ℕ → M ℤ) → M ℤ
unfolding finish_long_round
long_round total (failed e) next = pure (negsuc e)
long_round total (done bs) next = if length bs == 0 then pure (pos 0) else (do
  set_received (store_read bs)
  finish_long_round bs total (buf_contains_symbol (some bs) (pos (length bs)) end_text) next)

unfoldable pub long_text_loop : (fuel total : ℕ) → M ℤ
unfolding long_round
long_text_loop zero total = exhausted
long_text_loop (suc fuel) total = do
  window ← gets (λ c. c.cli.window)
  unless_neg (append_received (pos window)) (λ _. neg enospc)
      λ _. do
        r ← in_sock (read_socket window)
        long_round total r λ total'. long_text_loop fuel total'

unfoldable pub read_long_text : Ref → Ref → M ℤ
unfolding long_text_loop
read_long_text cli pack =
    if is_null cli || is_null pack
    then pure (neg einval)
    else (do fuel ← gets (λ c. weight c.sock.inbox + 1); long_text_loop fuel 0)

unfoldable pub parse_text : Ref → Ref → M ℤ
parse_text cli pack = if is_null cli || is_null pack then pure (neg einval) else (do
  count ← gets (λ c. c.pack.control1)
  width ← gets (λ c. c.pack.control2)
  if (count == 0) && (width == 0)
      then unless_neg (read_long_text cli pack) (λ _. neg 1) (λ _. pure (pos 0))
      else unless_neg (read_data cli pack (pos (count * width))) (λ _. neg 1)
          λ _.
            unless_neg (write_dataless cli 0 acknowledge start_text 0) (λ _. neg 1)
              λ _. pure (pos 0))
