-- ===== src/Manage/Request/Replies.antt =====
-- Confirmations and refusals, as `process_request` takes them.
use Prim.Native.String.{String}
use mathlib.Core.List.{append-nil}
use chopserver.Base.{ℕ, ◌≡◌, refl, sym, pos, List, [], ◌∷◌, some, if◌then◌else◌, ◌==◌}
use chopserver.Structs.{Ref}
use chopserver.Env.{with_str}
use chopserver.Machine.{Arrival, Conn, ok, pure, ◌>>=◌, gets, set_client}
use chopserver.Machine.Leads.{Returns}
use chopserver.Data.Transfer.{mark_closed}
use chopserver.Data.Transfer.Rounds.{stream}
use chopserver.Packet.Sending.Exact.{IsQuiet}
use chopserver.Debug.{Name, print_acknowledge, print_neg_acknowledge, stat_to_str}
use chopserver.Packet.Receiving.{
  parse_header, parse_acknowledge, parse_neg_acknowledge, set_inc_flag,
}
use chopserver.Packet.Receiving.Exact.{HasTag, print_named-ok}
use chopserver.Manage.Request.{process_request}
use chopserver.Manage.Request.Exact.{taken, process_request-header, Answered, then_print-Answered}

-- The statuses that a confirmation or a refusal can be about, and their names.
pub data IsConfirmable : ℕ → String → Type 0 where
  text : IsConfirmable 2 "START_TEXT"
  ping : IsConfirmable 5 "ENQURIY"
  wake : IsConfirmable 7 "WAKEUP"
  sleep : IsConfirmable 22 "IDLE"
  leave : IsConfirmable 27 "ESCAPE"

-- The incoming flag after a confirmation.
abbrev pub confirmed_inc : (control1 inc_flag : ℕ) → ℕ
confirmed_inc control1 inc_flag =
    if control1 == 7
    then 0
    else if control1 == 22
    then 22
    else if control1 == 27
    then 24
    else inc_flag

named_status :
    {control1 : ℕ} {name : String}
    → IsConfirmable control1 name
    → stat_to_str control1 ≡ Name.named name
unfolding stat_to_str
named_status text = refl
named_status ping = refl
named_status wake = refl
named_status sleep = refl
named_status leave = refl

set_flags : Conn → (inc out : ℕ) → Conn
set_flags c inc out = record c { cli = record c.cli { inc_flag = inc; out_flag = out } }

parse_acknowledge-ok :
    {control1 : ℕ} {name : String} (c : Conn)
    → IsConfirmable control1 name
    → c.pack.control1 ≡ control1
    → parse_acknowledge Ref.here Ref.here c
      ≡ ok (pos 0) (
          set_flags c
            (confirmed_inc control1 c.cli.inc_flag)
            (if control1 == 27 then 24 else c.cli.out_flag))
unfolding parse_acknowledge set_flags set_inc_flag set_client mark_closed ◌>>=◌ gets pure
parse_acknowledge-ok c text e = rw e refl
parse_acknowledge-ok c ping e = rw e refl
parse_acknowledge-ok c wake e = rw e refl
parse_acknowledge-ok c sleep e = rw e refl
parse_acknowledge-ok c leave e = rw e refl

parse_neg_acknowledge-ok :
    {control1 : ℕ} {name : String} (c : Conn)
    → IsConfirmable control1 name
    → c.pack.control1 ≡ control1
    → parse_neg_acknowledge Ref.here Ref.here c ≡ ok (pos 0) c
unfolding parse_neg_acknowledge ◌>>=◌ gets pure
parse_neg_acknowledge-ok c text e = rw e refl
parse_neg_acknowledge-ok c ping e = rw e refl
parse_neg_acknowledge-ok c wake e = rw e refl
parse_neg_acknowledge-ok c sleep e = rw e refl
parse_neg_acknowledge-ok c leave e = rw e refl

-- A confirmation.
pub acknowledge-Answered :
    (tag : String) {name : String} (control1 control2 : ℕ) (more : List ℕ) (rest : List Arrival)
    (c : Conn)
    → IsConfirmable control1 name
    → IsQuiet c
    → HasTag c tag
    → c.sock.inbox ≡ stream (0 ∷ 6 ∷ control1 ∷ control2 ∷ more) rest
    → Returns
        (λ r c'.
          (r ≡ pos 0)
          × Answered c tag
              (confirmed_inc control1 c.cli.inc_flag)
              (if control1 == 27 then 24 else c.cli.out_flag)
              []
              (stream more rest)
              (with_str " %s Confirmed\n" (some name))
              c')
        (process_request Ref.here Ref.here c)
unfolding parse_header print_acknowledge ◌>>=◌ gets set_flags
acknowledge-Answered tag {name} control1 control2 more rest c k q t e =
    let c' = taken c 0 6 control1 control2 (stream more rest) in
    process_request-header 0 6 control1 control2 more rest c q e (
      then_print-Answered (parse_acknowledge Ref.here Ref.here)
        (print_acknowledge Ref.here Ref.here) tag _ c c' _ t (parse_acknowledge-ok c' k refl)
        (λ u. rw (named_status k) (print_named-ok tag " %s Confirmed\n" name _ u))
        (record {
          inc_flag = refl;
          out_flag = refl;
          socket_fd = refl;
          sent = sym (append-nil c.sock.sent);
          inbox = refl;
          shown = refl;
          header_type = refl;
          memory = q.memory;
          writes = q.writes;
        }))

-- A refusal.
pub neg_acknowledge-Answered :
    (tag : String) {name : String} (control1 control2 : ℕ) (more : List ℕ) (rest : List Arrival)
    (c : Conn)
    → IsConfirmable control1 name
    → IsQuiet c
    → HasTag c tag
    → c.sock.inbox ≡ stream (0 ∷ 21 ∷ control1 ∷ control2 ∷ more) rest
    → Returns
        (λ r c'.
          (r ≡ pos 0)
          × Answered c tag c.cli.inc_flag c.cli.out_flag []
              (stream more rest)
              (with_str " %s Refused\n" (some name))
              c')
        (process_request Ref.here Ref.here c)
unfolding parse_header print_neg_acknowledge ◌>>=◌ gets set_flags
neg_acknowledge-Answered tag {name} control1 control2 more rest c k q t e =
    let c' = taken c 0 21 control1 control2 (stream more rest) in
    process_request-header 0 21 control1 control2 more rest c q e (
      then_print-Answered (parse_neg_acknowledge Ref.here Ref.here)
        (print_neg_acknowledge Ref.here Ref.here) tag _ c c' _ t
        (parse_neg_acknowledge-ok c' k refl)
        (λ u. rw (named_status k) (print_named-ok tag " %s Refused\n" name _ u))
        (record {
          inc_flag = refl;
          out_flag = refl;
          socket_fd = refl;
          sent = sym (append-nil c.sock.sent);
          inbox = refl;
          shown = refl;
          header_type = refl;
          memory = q.memory;
          writes = q.writes;
        }))
