-- ===== src/Manage/Request/Keeps.antt =====
-- A request ends, and leaves alone what is not its own.
use chopserver.Base.{◌≡◌, arith}
use chopserver.Structs.{Ref}
use chopserver.Env.{print}
use chopserver.Machine.{Conn, read_socket, set_client, set_packet}
use chopserver.Machine.Leads.{Returns-Leads, Leads, returns}
use chopserver.Data.Transfer.{append_received, set_received, mark_closed}
use chopserver.Manage.Request.{process_request}
use chopserver.Manage.Request.Whole.{IsWhole, process_request-Within}
use chopserver.Stable.Rules.{IsPreorder, IsStable, Within}
use chopserver.Stable.Sending.{Sends, dataless-Sends, wordpack-Sends}
use chopserver.Stable.Memory.{append_buffer-SameEnv}

-- The descriptors and the window of the client, the descriptors that were closed, the clock and
-- the side whose messages are printed stay as they were.
pub record Keeps (c c' : Conn) : Type 0 where
  pub socket_fd : c'.cli.socket_fd ≡ c.cli.socket_fd
  pub server_fd : c'.cli.server_fd ≡ c.cli.server_fd
  pub window : c'.cli.window ≡ c.cli.window
  pub closed : c'.env.closed ≡ c.env.closed
  pub clock : c'.env.clock ≡ c.env.clock
  pub header_type : c'.env.header_type ≡ c.env.header_type

Keeps-IsPreorder : IsPreorder Keeps
Keeps-IsPreorder = record { reflexive = λ c. ground arith; transitive = λ a b c h k. ground arith }

Keeps-Sends : {c c' : Conn} → Within Sends c c' → Within Keeps c c'
Keeps-Sends w = record { shrinks = w.shrinks; related = ground (arith, w.related.env) }

Keeps-IsStable : IsStable Keeps
unfolding read_socket print append_received set_received mark_closed set_client set_packet
Keeps-IsStable = record {
  order = Keeps-IsPreorder;
  at_read = λ n c. ground arith;
  at_header = λ bs c. ground arith;
  at_received = λ f c. returns (record { shrinks = omega arith; related = ground arith });
  at_append = λ size c. returns (record {
    shrinks = omega arith;
    related = ground (arith, append_buffer-SameEnv Ref.here c.pack size c.env);
  });
  at_closed = λ c. returns (record { shrinks = omega arith; related = ground arith });
  at_flag = λ flag c which. ground arith;
  at_print = λ p c. ground arith;
  at_dataless =
      λ cli hd s a b c. Returns-Leads (dataless-Sends cli hd s a b c) λ _ c' w. Keeps-Sends w;
  at_wordpack =
      λ cli hd s a b v c. Returns-Leads (wordpack-Sends cli hd s a b v c) λ _ c' w. Keeps-Sends w;
}

Keeps-IsWhole : IsWhole Keeps
Keeps-IsWhole = record {
  stable = Keeps-IsStable;
  at_packet = λ p c. ground arith;
  at_memory = λ e c same. ground arith;
}

-- Where what a client sends is finite, in any arrivals, and every `read` comes back, with bytes, with a
-- failure or at last with the end of the stream, and however `write` and the allocator behave:
-- `process_request` returns or reaches undefined behaviour, and neither the extended headers nor the
-- search for the end of a long text goes on after what was sent is read. (A peer that stays silent
-- without closing lets a `read` wait, and one that sends headers without end is read without end;
-- these are no inboxes of the model.) It does not lengthen what is left to read, and it changes neither
-- the client's descriptors and window nor the closed descriptors, the clock and the header type.
pub process_request-Keeps :
    (cli all_fds : Ref) (c : Conn) → Leads (λ _. Within Keeps c) (process_request cli all_fds c)
process_request-Keeps = process_request-Within Keeps-IsWhole
