-- ===== src/Packet/Receiving/Answers.antt =====
-- src/choppacket.c: the handlers that answer an enquiry, a request to sleep, to wake or to leave,
-- and those of a confirmation and a refusal.
use chopserver.Base.{ℕ, ℤ, pos, neg, ◌==◌, ◌||◌, if◌then◌else◌}
use chopserver.Structs.{
  Ref, is_null, null_byte, start_text, enquiry, enquiry_normal, enquiry_return, enquiry_time,
  enquiry_rtime, acknowledge, wakeup, neg_acknowledge, idle, escape, einval,
}
use chopserver.Machine.{M, pure, gets, set_client, ◌>>=◌, ◌>>◌, unless_neg}
use chopserver.Data.Transfer.{mark_closed, read_data}
use chopserver.Packet.Sending.{write_dataless, write_wordpack}

-- A packet without data is sent, and the result is 0 if that went well.
unfoldable pub answer : Ref → (status control1 : ℕ) → M ℤ
answer cli status control1 =
    unless_neg (write_dataless cli 0 status control1 0) (λ _. neg 1) λ _. pure (pos 0)

unfoldable pub parse_enquiry : Ref → Ref → M ℤ
unfolding answer
parse_enquiry cli pack = if is_null cli || is_null pack then pure (neg einval) else (do
  control1 ← gets (λ c. c.pack.control1)
  control2 ← gets (λ c. c.pack.control2)
  now ← gets (λ c. c.env.clock)
  if control1 == enquiry_normal
      then answer cli acknowledge enquiry
      else if control1 == enquiry_return
      then answer cli enquiry 0
      else if control1 == enquiry_time
      then (unless_neg (read_data cli pack (pos control2)) (λ _. neg 1)
          λ _. answer cli acknowledge enquiry)
      else if control1 == enquiry_rtime
      then (unless_neg (write_wordpack cli 0 enquiry enquiry_time 8 now) (λ _. neg 1)
          λ _. pure (pos 0))
      else pure (neg 1))

unfoldable pub set_inc_flag : ℕ → M (Unit {0})
set_inc_flag flag = set_client λ cli. record cli { inc_flag = flag }

unfoldable pub parse_acknowledge : Ref → Ref → M ℤ
unfolding set_inc_flag
parse_acknowledge cli pack = if is_null cli || is_null pack then pure (neg einval) else (do
  control1 ← gets (λ c. c.pack.control1)
  if control1 == start_text
      then pure (pos 0)
      else if control1 == enquiry
      then pure (pos 0)
      else if control1 == wakeup
      then (do set_inc_flag null_byte; pure (pos 0))
      else if control1 == idle
      then (do set_inc_flag idle; pure (pos 0))
      else if control1 == escape
      then (do mark_closed; pure (pos 0))
      else pure (neg 1))

unfoldable pub parse_wakeup : Ref → Ref → M ℤ
unfolding set_inc_flag answer
parse_wakeup cli pack = if is_null cli || is_null pack then pure (neg einval) else (do
  inc_flag ← gets (λ c. c.cli.inc_flag)
  if inc_flag == idle
      then (do set_inc_flag null_byte; answer cli acknowledge wakeup)
      else answer cli neg_acknowledge wakeup)

unfoldable pub parse_neg_acknowledge : Ref → Ref → M ℤ
parse_neg_acknowledge cli pack = if is_null cli || is_null pack then pure (neg einval) else (do
  control1 ← gets (λ c. c.pack.control1)
  if control1 == start_text
      then pure (pos 0)
      else if control1 == enquiry
      then pure (pos 0)
      else if control1 == wakeup
      then pure (pos 0)
      else if control1 == idle
      then pure (pos 0)
      else if control1 == escape
      then pure (pos 0)
      else pure (neg 1))

unfoldable pub parse_idle : Ref → Ref → M ℤ
unfolding set_inc_flag answer
parse_idle cli pack = if is_null cli || is_null pack then pure (neg einval) else (do
  inc_flag ← gets (λ c. c.cli.inc_flag)
  if inc_flag == null_byte
      then (do set_inc_flag idle; answer cli acknowledge idle)
      else answer cli neg_acknowledge idle)

unfoldable pub parse_escape : Ref → Ref → M ℤ
parse_escape cli pack =
    if is_null cli || is_null pack
    then pure (neg einval)
    else unless_neg (write_dataless cli 0 acknowledge escape 0) (λ _. neg 1)
        λ _. do mark_closed; pure (pos 0)
