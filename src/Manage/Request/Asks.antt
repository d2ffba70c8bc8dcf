-- ===== src/Manage/Request/Asks.antt =====
-- Requests to sleep, to wake and to leave, as `process_request` answers them.
use Prim.Native.String.{String}
use chopserver.Base.{
  ℕ, ◌≡◌, refl, inl, inr, pos, List, [], ◌∷◌, true, if◌then◌else◌, ◌==◌, Bool-cases,
}
use chopserver.Structs.{Ref}
use chopserver.Env.{plain}
use chopserver.Machine.{Arrival, Conn, ◌>>=◌, gets}
use chopserver.Machine.Leads.{Returns}
use chopserver.Data.Transfer.Rounds.{stream}
use chopserver.Packet.Sending.Exact.{IsQuiet}
use chopserver.Debug.{print_idle, print_wakeup, print_escape, print_line}
use chopserver.Packet.Receiving.{parse_header, parse_idle, parse_wakeup, parse_escape}
use chopserver.Packet.Receiving.Exact.{
  HasTag, print_line-ok, parse_idle-ok, parse_wakeup-ok, parse_escape-ok,
}
use chopserver.Manage.Request.{process_request}
use chopserver.Manage.Request.Exact.{
  taken, taken-IsQuiet, process_request-header, Answered, then_print-Answered, after_call-Handled,
  answer_bytes,
}

-- A request to sleep.
pub idle-Answered :
    (tag : String) (more : List ℕ) (rest : List Arrival) (c : Conn)
    → IsQuiet c
    → HasTag c tag
    → c.sock.inbox ≡ stream (0 ∷ 22 ∷ 0 ∷ 0 ∷ more) rest
    → Returns
        (λ r c'.
          (r ≡ pos 0)
          × Answered c tag
              (if c.cli.inc_flag == 0 then 22 else c.cli.inc_flag)
              0
              (answer_bytes (c.cli.inc_flag == 0) 22)
              (stream more rest)
              (plain " Requesting Idle\n")
              c')
        (process_request Ref.here Ref.here c)
unfolding parse_header ◌>>=◌ print_idle gets
idle-Answered tag more rest c q t e =
    let left = stream more rest in
    let c' = taken c 0 22 0 0 left in
    let h = parse_idle-ok c' (taken-IsQuiet c 0 22 0 0 left q) in
    let shows = λ (d : Conn). print_line-ok tag " Requesting Idle\n" d in
    process_request-header 0 22 0 0 more rest c q e (elim (Bool-cases (c.cli.inc_flag == 0)) [
      | inl awake ↦ rw awake (
          then_print-Answered (parse_idle Ref.here Ref.here) (print_line " Requesting Idle\n") tag _
            c c' _ t (rw awake at h) (shows _)
            (after_call-Handled 22 1 0 22 0 0 (0 ∷ 6 ∷ 22 ∷ 0 ∷ []) left c q))
      | inr other ↦ rw other (
          then_print-Answered (parse_idle Ref.here Ref.here) (print_line " Requesting Idle\n") tag _
            c c' _ t (rw other at h) (shows _)
            (after_call-Handled c.cli.inc_flag 1 0 22 0 0 (0 ∷ 21 ∷ 22 ∷ 0 ∷ []) left c q))
    ])

-- A request to wake.
pub wakeup-Answered :
    (tag : String) (more : List ℕ) (rest : List Arrival) (c : Conn)
    → IsQuiet c
    → HasTag c tag
    → c.sock.inbox ≡ stream (0 ∷ 7 ∷ 0 ∷ 0 ∷ more) rest
    → Returns
        (λ r c'.
          (r ≡ pos 0)
          × Answered c tag
              (if c.cli.inc_flag == 22 then 0 else c.cli.inc_flag)
              0
              (answer_bytes (c.cli.inc_flag == 22) 7)
              (stream more rest)
              (plain " Requesting Wakeup\n")
              c')
        (process_request Ref.here Ref.here c)
unfolding parse_header ◌>>=◌ print_wakeup gets
wakeup-Answered tag more rest c q t e =
    let left = stream more rest in
    let c' = taken c 0 7 0 0 left in
    let h = parse_wakeup-ok c' (taken-IsQuiet c 0 7 0 0 left q) in
    let shows = λ (d : Conn). print_line-ok tag " Requesting Wakeup\n" d in
    process_request-header 0 7 0 0 more rest c q e (elim (Bool-cases (c.cli.inc_flag == 22)) [
      | inl asleep ↦ rw asleep (
          then_print-Answered (parse_wakeup Ref.here Ref.here) (print_line " Requesting Wakeup\n")
            tag _ c c' _ t (rw asleep at h) (shows _)
            (after_call-Handled 0 1 0 7 0 0 (0 ∷ 6 ∷ 7 ∷ 0 ∷ []) left c q))
      | inr other ↦ rw other (
          then_print-Answered (parse_wakeup Ref.here Ref.here) (print_line " Requesting Wakeup\n")
            tag _ c c' _ t (rw other at h) (shows _)
            (after_call-Handled c.cli.inc_flag 1 0 7 0 0 (0 ∷ 21 ∷ 7 ∷ 0 ∷ []) left c q))
    ])

-- A request to leave.
pub escape-Answered :
    (tag : String) (more : List ℕ) (rest : List Arrival) (c : Conn)
    → IsQuiet c
    → HasTag c tag
    → c.sock.inbox ≡ stream (0 ∷ 27 ∷ 0 ∷ 0 ∷ more) rest
    → Returns
        (λ r c'.
          (r ≡ pos 0)
          × Answered c tag 24 24
              (answer_bytes true 27)
              (stream more rest)
              (plain " Requesting Disconnect\n")
              c')
        (process_request Ref.here Ref.here c)
unfolding parse_header ◌>>=◌ print_escape gets
escape-Answered tag more rest c q t e =
    let left = stream more rest in
    let c' = taken c 0 27 0 0 left in
    process_request-header 0 27 0 0 more rest c q e (
      then_print-Answered (parse_escape Ref.here Ref.here) (print_line " Requesting Disconnect\n")
        tag _ c c' _ t (parse_escape-ok c' (taken-IsQuiet c 0 27 0 0 left q))
        (print_line-ok tag " Requesting Disconnect\n" _)
        (record {
          inc_flag = refl;
          out_flag = refl;
          socket_fd = refl;
          sent = refl;
          inbox = refl;
          shown = refl;
          header_type = refl;
          memory = q.memory;
          writes = q.writes;
        }))
