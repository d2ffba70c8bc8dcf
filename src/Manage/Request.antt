-- ===== src/Manage/Request.antt =====
-- src/chopconn.c: `process_request` and `is_client_status`.
pub mod Whole
pub mod Keeps
pub mod Flags
pub mod Balance
pub mod Exact
pub mod Asks
pub mod Replies
pub mod Exchange
pub mod Texts
pub mod Unnamed
pub mod Ended
pub mod Enquiries
pub mod Bounded
use chopserver.Base.{
  ℕ, ◌+◌, ℤ, pos, pos_part, neg, is_neg, Bool, ◌==◌, ◌&&◌, ◌||◌, if◌then◌else◌, false,
}
use chopserver.Structs.{Ref, is_null, Packet, Client, einval, enomem}
use chopserver.Memory.{Init, made, refused, init_packet_struct}
use chopserver.Machine.{weight, M, pure, gets, in_env, set_packet, ◌>>=◌, ◌>>◌, unless_neg}
use chopserver.Data.Transfer.{read_header}
use chopserver.Packet.Sending.{destroy}
use chopserver.Packet.Receiving.{parse_header}

-- The header, and what it announces. Every case of the `switch` over the incoming flag comes to
-- this. A round of `parse_header` that calls itself has read a header before, so what there is to
-- read bounds its depth.
unfoldable pub receive : Ref → M ℤ
receive cli = do
  status ← read_header cli Ref.here
  if is_neg status
      then pure status
      else do fuel ← gets (λ c. weight c.sock.inbox + 1); parse_header fuel cli Ref.here

-- The packet's memory is given back whatever the status is.
unfoldable pub receive_packet : Ref → Init Packet → M ℤ
unfolding receive
receive_packet cli (refused code) = pure (neg enomem)
receive_packet cli (made new) = do
  set_packet (λ _. new)
  status ← receive cli
  pack ← gets (λ c. c.pack)
  unless_neg (destroy pack) (λ _. neg 1) λ _. pure status

unfoldable pub process_request : (cli all_fds : Ref) → M ℤ
unfolding receive_packet
process_request cli all_fds =
    if is_null cli || is_null all_fds
    then pure (neg einval)
    else (do pack ← in_env (init_packet_struct Ref.here); receive_packet cli pack)

-- Both flags of the client hold the status.
unfoldable pub is_client_status : Ref → Client → ℤ → Bool
is_client_status ptr cli status =
    if is_null ptr || is_neg status
    then false
    else cli.inc_flag == pos_part status && cli.out_flag == pos_part status
