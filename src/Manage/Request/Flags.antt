-- ===== src/Manage/Request/Flags.antt =====
-- The values of a client's incoming flag: awake, asleep or closing.
use chopserver.Base.{◌≡◌, refl, ◌⊎◌, inr, arith}
use chopserver.Structs.{Ref, null_byte, idle, cancel}
use chopserver.Env.{print}
use chopserver.Machine.{Conn, read_socket, set_client, set_packet}
use chopserver.Machine.Leads.{Returns-Leads, Leads, returns, Leads-mono}
use chopserver.Data.Transfer.{append_received, set_received, mark_closed}
use chopserver.Manage.Request.{process_request}
use chopserver.Manage.Request.Whole.{IsWhole, process_request-Within}
use chopserver.Stable.Rules.{IsPreorder, IsStable, Within}
use chopserver.Stable.Sending.{Sends, dataless-Sends, wordpack-Sends}

-- The client is awake, asleep, or to be closed.
abbrev pub HasFlag : Conn → Type 0
HasFlag c = (c.cli.inc_flag ≡ null_byte) ⊎ ((c.cli.inc_flag ≡ idle) ⊎ (c.cli.inc_flag ≡ cancel))

pub record FlagKept (c c' : Conn) : Type 0 where
  pub keeps : HasFlag c → HasFlag c'

FlagKept-IsPreorder : IsPreorder FlagKept
FlagKept-IsPreorder = record {
  reflexive = λ c. record { keeps = λ h. h };
  transitive = λ a b c h k. record { keeps = λ x. k.keeps (h.keeps x) };
}

FlagKept-Sends : {c c' : Conn} → Within Sends c c' → Within FlagKept c c'
FlagKept-Sends w = record {
  shrinks = w.shrinks;
  related = record { keeps = λ h. rw w.related.inc_flag h };
}

FlagKept-IsStable : IsStable FlagKept
unfolding read_socket print append_received set_received mark_closed set_client set_packet
FlagKept-IsStable = record {
  order = FlagKept-IsPreorder;
  at_read = λ n c. record { keeps = λ h. h };
  at_header = λ bs c. record { keeps = λ h. h };
  at_received =
      λ f c. returns (record { shrinks = omega arith; related = record { keeps = λ h. h } });
  at_append =
      λ size c. returns (record { shrinks = omega arith; related = record { keeps = λ h. h } });
  at_closed = λ c.
      returns (record { shrinks = omega arith; related = record { keeps = λ h. inr (inr refl) } });
  at_flag = λ flag c which. record { keeps = λ h. ground arith };
  at_print = λ p c. record { keeps = λ h. h };
  at_dataless =
      λ cli hd s a b c. Returns-Leads (dataless-Sends cli hd s a b c) λ _ c' w. FlagKept-Sends w;
  at_wordpack = λ cli hd s a b v c.
      Returns-Leads (wordpack-Sends cli hd s a b v c) λ _ c' w. FlagKept-Sends w;
}

FlagKept-IsWhole : IsWhole FlagKept
FlagKept-IsWhole = record {
  stable = FlagKept-IsStable;
  at_packet = λ p c. record { keeps = λ h. h };
  at_memory = λ e c same. record { keeps = λ h. h };
}

-- Whatever a client sends, after `process_request` its incoming flag is again NULL, IDLE or
-- CANCEL if it was before; the call ends.
pub process_request-HasFlag :
    (cli all_fds : Ref) (c : Conn)
    → HasFlag c
    → Leads (λ _. HasFlag) (process_request cli all_fds c)
process_request-HasFlag cli all_fds c h =
    Leads-mono (process_request-Within FlagKept-IsWhole cli all_fds c) λ _ c' w. w.related.keeps h
