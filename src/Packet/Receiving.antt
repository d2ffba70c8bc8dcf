-- ===== src/Packet/Receiving.antt =====
-- src/choppacket.c, the receiving functions. `parse_header` and `parse_long_header` call each
-- other, on fuel.
mod Text
pub mod Exact
pub mod Long
mod Answers
unfoldable pub use Text.*
unfoldable pub use Answers.*
use chopserver.Base.{
  ℕ, zero, suc, ◌+◌, ◌*◌, ◌^◌, ℤ, pos, pos_part, neg, is_neg, is_zero, ltb, ◌==◌, List, [], ◌∷◌,
  ◌&&◌, ◌||◌, not, Option, none, some, length, if◌then◌else◌,
}
use chopserver.Structs.{
  Ref, is_null, Buffer, null_byte, start_header, start_text, end_text, enquiry, enquiry_normal,
  enquiry_return, enquiry_time, enquiry_rtime, acknowledge, wakeup, neg_acknowledge, idle, cancel,
  escape, einval, enospc,
}
use chopserver.Machine.{
  Arrival, bytes, broken, Io, done, failed, read_socket, Conn, M, pure, gets, in_sock, undefined,
  exhausted, set_client, ◌>>=◌, ◌>>◌, unless_neg,
}
use chopserver.Data.Transfer.{
  mark_closed, append_received, set_received, received, store_read, read_data, read_header,
}
use chopserver.Data.Scan.{buf_contains_symbol}
use chopserver.Debug.{
  print_text, print_enquiry, print_acknowledge, print_neg_acknowledge, print_wakeup, print_idle,
  print_escape,
}
use chopserver.Packet.Sending.{write_dataless, write_wordpack}

-- The rounds of `parse_long_header`; any status but 0 ends them.
unfoldable pub long_header_loop : (parse : M ℤ) → Ref → Ref → (rounds : ℕ) → M (Unit {0})
long_header_loop parse cli pack zero = pure tt
long_header_loop parse cli pack (suc rounds) = do
  status ← read_header cli pack
  if not (is_zero status) then pure tt else do
    status ← parse
    if not (is_zero status) then pure tt else long_header_loop parse cli pack rounds

-- `parse` is the call of `parse_header`.
unfoldable pub parse_long_header : (parse : M ℤ) → Ref → Ref → M ℤ
unfolding long_header_loop
parse_long_header parse cli pack = if is_null cli || is_null pack then pure (neg einval) else (do
  packetcount ← gets (λ c. c.pack.control1)
  long_header_loop parse cli pack packetcount
  pure (pos 0))

-- `status = parse(...); if (print(...) < 0) return -1; return status`
unfoldable pub then_print : M ℤ → M ℤ → M ℤ
then_print parse show = do status ← parse; unless_neg show (λ _. neg 1) λ _. pure status

unfoldable pub parse_header : (fuel : ℕ) → Ref → Ref → M ℤ
unfolding then_print
parse_header zero cli pack = exhausted
parse_header (suc fuel) cli pack =
    let again = parse_header fuel cli pack in
    if is_null cli || is_null pack then pure (neg einval) else (do
      status ← gets (λ c. c.pack.status)
      if status == null_byte
          then pure (pos 0)
          else if status == start_header
          then parse_long_header again cli pack
          else if status == start_text
          then then_print (parse_text cli pack) (print_text cli pack)
          else if status == enquiry
          then then_print (parse_enquiry cli pack) (print_enquiry cli pack)
          else if status == acknowledge
          then then_print (parse_acknowledge cli pack) (print_acknowledge cli pack)
          else if status == wakeup
          then then_print (parse_wakeup cli pack) (print_wakeup cli pack)
          else if status == neg_acknowledge
          then then_print (parse_neg_acknowledge cli pack) (print_neg_acknowledge cli pack)
          else if status == idle
          then then_print (parse_idle cli pack) (print_idle cli pack)
          else if status == escape
          then then_print (parse_escape cli pack) (print_escape cli pack)
          else pure (neg 1))
