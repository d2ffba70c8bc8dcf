-- ===== src/Packet/Receiving/Exact.antt =====
-- The receiving functions where memory is to be had and the socket takes every write whole: what
-- a header is taken for, what is answered, printed and marked.
use Prim.Native.String.{String}
use mathlib.Core.List.{append_assoc}
use chopserver.Base.{
  ℕ, ◌≡◌, ap, pos, List, [], ◌∷◌, ◌++◌, some, get_elem?, if◌then◌else◌, ◌==◌, Bool-cases, inl, inr,
}
use chopserver.Structs.{Ref}
use chopserver.Env.{Printed, plain, with_int, with_str, print}
use chopserver.Machine.{Arrival, Conn, ok, unless_neg, set_client, ◌>>=◌}
use chopserver.Data.Transfer.{mark_closed, take_header, read_header}
use chopserver.Data.Transfer.Rounds.{stream, read_socket-stream}
use chopserver.Packet.Sending.Exact.{IsQuiet, after_call, write_dataless-ok}
use chopserver.Debug.{
  Name, print_named, all_headers, printf, print_header, print_prefix, print_line,
}
use chopserver.Packet.Receiving.{answer, set_inc_flag, parse_idle, parse_wakeup, parse_escape}

-- Four bytes of input and what follows them: the header is taken from them.
abbrev pub with_header : Conn → (head status control1 control2 : ℕ) → List Arrival → Conn
with_header c head status control1 control2 left = record c {
  sock = record c.sock { inbox = left };
  pack = record c.pack { head = head; status = status; control1 = control1; control2 = control2 };
}

-- Where at least four bytes have come together, `read_header` returns 0, takes the first four for
-- the fields of the packet, in order, and leaves exactly the others to be read.
pub read_header-ok :
    (head status control1 control2 : ℕ) (more : List ℕ) (rest : List Arrival) (c : Conn)
    → c.sock.inbox ≡ stream (head ∷ status ∷ control1 ∷ control2 ∷ more) rest
    → read_header Ref.here Ref.here c
      ≡ ok (pos 0) (with_header c head status control1 control2 (stream more rest))
unfolding read_header take_header ◌>>=◌
read_header-ok h s a b more rest c e = rw (read_socket-stream h (s ∷ a ∷ b ∷ []) more rest c.sock e)

abbrev pub after_print : Conn → List Printed → Conn
after_print c ps = record c { env = record c.env { shown = c.env.shown ++ ps } }

-- The side that prints is one of the two.
abbrev pub HasTag : Conn → String → Type 0
HasTag c tag = get_elem? all_headers c.env.header_type ≡ some tag

pub print_prefix-ok :
    (tag : String) (c : Conn)
    → HasTag c tag
    → print_prefix c ≡ ok tt (after_print c (with_int tag c.cli.socket_fd ∷ []))
unfolding print_prefix ◌>>=◌ printf print
print_prefix-ok tag c e = rw (e, print_header)

pub print_line-ok :
    (tag line : String) (c : Conn)
    → HasTag c tag
    → print_line line c
      ≡ ok (pos 0) (after_print c (with_int tag c.cli.socket_fd ∷ plain line ∷ []))
unfolding print_line ◌>>=◌ printf print
print_line-ok tag line c e = rw (print_prefix-ok tag c e) (
    ap (λ l. ok (pos 0) (record c { env = record c.env { shown = l } }))
      (append_assoc c.env.shown (with_int tag c.cli.socket_fd ∷ []) (plain line ∷ [])))

pub print_named-ok :
    (tag format name : String) (c : Conn)
    → HasTag c tag
    → print_named format (Name.named name) c
      ≡ ok (pos 0) (after_print c (with_int tag c.cli.socket_fd ∷ with_str format (some name) ∷ []))
unfolding print_named ◌>>=◌ printf print
print_named-ok tag format name c e = rw (print_prefix-ok tag c e) (
    ap (λ l. ok (pos 0) (record c { env = record c.env { shown = l } }))
      (append_assoc c.env.shown (with_int tag c.cli.socket_fd ∷ [])
        (with_str format (some name) ∷ [])))

abbrev pub with_inc_flag : Conn → ℕ → Conn
with_inc_flag c flag = record c { cli = record c.cli { inc_flag = flag } }

abbrev pub with_closed : Conn → Conn
with_closed c = record c { cli = record c.cli { inc_flag = 24; out_flag = 24 } }

IsQuiet-flag : (c : Conn) (flag : ℕ) → IsQuiet c → IsQuiet (with_inc_flag c flag)
IsQuiet-flag c flag q = record { memory = q.memory; writes = q.writes }

-- Where every `malloc` succeeds and every write is taken whole, `parse_idle` grants the request
-- of a client that is awake, which it then marks as sleeping, and refuses that of any other,
-- whose incoming flag it leaves; the answer is all that is sent.
pub parse_idle-ok :
    (c : Conn)
    → IsQuiet c
    → parse_idle Ref.here Ref.here c
      ≡ ok (pos 0) (
          if c.cli.inc_flag == 0
          then after_call (with_inc_flag c 22) 1 (0 ∷ 6 ∷ 22 ∷ 0 ∷ [])
          else after_call c 1 (0 ∷ 21 ∷ 22 ∷ 0 ∷ []))
unfolding parse_idle set_inc_flag set_client answer ◌>>=◌ unless_neg
parse_idle-ok c q = elim (Bool-cases (c.cli.inc_flag == 0)) [
  | inl awake ↦
      rw awake (rw (write_dataless-ok 0 6 22 0 (with_inc_flag c 22) (IsQuiet-flag c 22 q)))
  | inr other ↦ rw other (rw (write_dataless-ok 0 21 22 0 c q))
]

-- Where every `malloc` succeeds and every write is taken whole, `parse_wakeup` grants the request
-- of a client that sleeps, which it then marks as awake, and refuses that of any other, whose
-- incoming flag it leaves; the answer is all that is sent.
pub parse_wakeup-ok :
    (c : Conn)
    → IsQuiet c
    → parse_wakeup Ref.here Ref.here c
      ≡ ok (pos 0) (
          if c.cli.inc_flag == 22
          then after_call (with_inc_flag c 0) 1 (0 ∷ 6 ∷ 7 ∷ 0 ∷ [])
          else after_call c 1 (0 ∷ 21 ∷ 7 ∷ 0 ∷ []))
unfolding parse_wakeup set_inc_flag set_client answer ◌>>=◌ unless_neg
parse_wakeup-ok c q = elim (Bool-cases (c.cli.inc_flag == 22)) [
  | inl asleep ↦ rw asleep (rw (write_dataless-ok 0 6 7 0 (with_inc_flag c 0) (IsQuiet-flag c 0 q)))
  | inr other ↦ rw other (rw (write_dataless-ok 0 21 7 0 c q))
]

-- Where every `malloc` succeeds and every write is taken whole, `parse_escape` confirms the
-- request to leave and marks the client, in both flags, as to be closed.
pub parse_escape-ok :
    (c : Conn)
    → IsQuiet c
    → parse_escape Ref.here Ref.here c
      ≡ ok (pos 0) (with_closed (after_call c 1 (0 ∷ 6 ∷ 27 ∷ 0 ∷ [])))
unfolding parse_escape mark_closed ◌>>=◌ unless_neg
parse_escape-ok c q = rw (write_dataless-ok 0 6 27 0 c q)
