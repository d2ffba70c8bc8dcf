-- ===== src/Protocol/Ends.antt =====
-- The ends of a conversation: where one is, and what has become of it.
use Prim.Native.String.{String}
use chopserver.Base.{ℕ, ◌≤◌, ◌≡◌, ◌∙◌, sym, ap, pos, List, ◌++◌}
use chopserver.Structs.{Ref, Client}
use chopserver.Env.{Printed}
use chopserver.Machine.{Arrival, Conn}
use chopserver.Machine.Leads.{Returns, Returns-both, Returns-mono}
use chopserver.Packet.Sending.Exact.{IsQuiet}
use chopserver.Packet.Receiving.Exact.{HasTag}
use chopserver.Stable.Rules.{Within}
use chopserver.Manage.Request.{process_request}
use chopserver.Manage.Request.Keeps.{Keeps, process_request-Keeps}
use chopserver.Manage.Request.Exact.{Answered}
use chopserver.Protocol.{Message, encode_all, Mode, awake, asleep, Stance, stays, left}

-- The incoming flag of an end that takes part.
abbrev pub flag_of : Mode → ℕ
flag_of awake = 0
flag_of asleep = 22

-- The flags show where an end is: both hold CANCEL when it has left.
abbrev pub IsIn : Stance → Client → Type 0
IsIn (stays mode) cli = cli.inc_flag ≡ flag_of mode
IsIn left cli = (cli.inc_flag ≡ 24) × (cli.out_flag ≡ 24)

-- An end with memory, whose writes are taken whole, under a header that there is, with a window
-- that has room for a `time_t`.
pub record IsFluent (tag : String) (clock : ℕ) (c : Conn) : Type 0 where
  pub quiet : IsQuiet c
  pub tagged : HasTag c tag
  pub window : 8 ≤ c.cli.window
  pub ticks : c.env.clock ≡ clock

-- What has become of an end that was handed messages.
pub record Went (tag : String) (clock : ℕ) (stance : Stance) (answers : List Message)
    (inbox : List Arrival) (c c' : Conn) : Type 0 where
  pub fluent : IsFluent tag clock c'
  pub placed : IsIn stance c'.cli
  pub sent : c'.sock.sent ≡ c.sock.sent ++ encode_all answers
  pub unread : c'.sock.inbox ≡ inbox

module _ (tag : String) (clock : ℕ) where
  Answered-Went :
      {inc out : ℕ} {reply : List ℕ} {inbox : List Arrival} {line : Printed} {c c' : Conn}
      (stance : Stance) (answers : List Message)
      → IsFluent tag clock c
      → Answered c tag inc out reply inbox line c'
      → Within Keeps c c'
      → encode_all answers ≡ reply
      → (c'.cli.inc_flag ≡ inc → c'.cli.out_flag ≡ out → IsIn stance c'.cli)
      → Went tag clock stance answers inbox c c'
  Answered-Went {c} {c'} stance answers f a w coded there = record {
    fluent = record {
      quiet = record { memory = a.memory; writes = a.writes };
      tagged = a.tagged;
      window = rw w.related.window f.window;
      ticks = w.related.clock ∙ f.ticks;
    };
    placed = there a.inc_flag a.out_flag;
    sent = a.sent ∙ ap (λ l. c.sock.sent ++ l) (sym coded);
    unread = a.inbox;
  }

  -- A request whose outcome is known, as a step of the protocol.
  pub step-Went :
      {inc out : ℕ} {reply : List ℕ} {inbox : List Arrival} {line : Printed} (c : Conn)
      (stance : Stance) (answers : List Message)
      → IsFluent tag clock c
      → encode_all answers ≡ reply
      → ((cli : Client) → cli.inc_flag ≡ inc → cli.out_flag ≡ out → IsIn stance cli)
      → Returns
          (λ r c'. (r ≡ pos 0) × Answered c tag inc out reply inbox line c')
          (process_request Ref.here Ref.here c)
      → Returns
          (λ r c'. (r ≡ pos 0) × Went tag clock stance answers inbox c c')
          (process_request Ref.here Ref.here c)
  step-Went c stance answers f coded there run =
      Returns-mono (Returns-both run (process_request-Keeps Ref.here Ref.here c))
        λ r c' both. (both.0.0, Answered-Went stance answers f both.0.1 both.1 coded (there c'.cli))
