-- ===== src/Manage/Request/Exact.antt =====
-- What a single request comes to where every `malloc` succeeds, every write is taken whole and
-- its header has come: the flags of the client, the answer and the line that is printed.
use Prim.Native.String.{String}
use native.Mathlib.Numerals.{add-one}
use chopserver.Base.{
  ℕ, suc, ◌+◌, ◌*◌, ◌≡◌, refl, ap, Bool, ℤ, pos, List, [], ◌∷◌, ◌++◌, arith, length, if◌then◌else◌,
}
use chopserver.Structs.{Ref, Buffer, Packet}
use chopserver.Env.{Env, Printed, with_int, malloc-ok, free}
use chopserver.Memory.{init_packet_struct, free_segments, destroy_packet_struct}
use chopserver.Machine.{Arrival, weight, Conn, M, ok, and_then, unless_neg, pure, ◌>>=◌}
use chopserver.Machine.Leads.{Returns, gives, Returns-bind}
use chopserver.Data.Transfer.Rounds.{stream}
use chopserver.Packet.Sending.{destroy}
use chopserver.Packet.Sending.Exact.{IsQuiet, after_call}
use chopserver.Packet.Receiving.{then_print, parse_header}
use chopserver.Packet.Receiving.Exact.{
  with_header, read_header-ok, after_print, HasTag, with_inc_flag,
}
use chopserver.Manage.Request.{receive, receive_packet, process_request}

-- The connection after the header was read into the fresh packet of a request.
abbrev pub taken : Conn → (head status control1 control2 : ℕ) → List Arrival → Conn
taken c head status control1 control2 left =
    with_header
      (record c {
        pack = record {
          head = 255;
          status = 255;
          control1 = 255;
          control2 = 255;
          data_section = [];
          datalen = 0;
        };
        env = record c.env { allocated = c.env.allocated + 1 };
      })
      head status control1 control2 left

-- The packet is given back.
abbrev pub released : Conn → Conn
released c = record c { env = free (free_segments c.pack.data_section c.env) }

pub taken-IsQuiet :
    (c : Conn) (head status control1 control2 : ℕ) (left : List Arrival)
    → IsQuiet c
    → IsQuiet (taken c head status control1 control2 left)
taken-IsQuiet c h s a b left q = record { memory = q.memory; writes = q.writes }

-- A request whose header has come is the handling of the header, and the release of the packet.
pub process_request-header :
    {P : ℤ → Conn → Type 0} (head status control1 control2 : ℕ) (more : List ℕ)
    (rest : List Arrival) (c : Conn)
    → IsQuiet c
    → c.sock.inbox ≡ stream (head ∷ status ∷ control1 ∷ control2 ∷ more) rest
    → Returns
        (λ r c'. P r (released c'))
        (parse_header
          (suc (weight (stream more rest)))
          Ref.here
          Ref.here
          (taken c head status control1 control2 (stream more rest)))
    → Returns P (process_request Ref.here Ref.here c)
unfolding process_request receive_packet receive ◌>>=◌ and_then init_packet_struct unless_neg
    destroy destroy_packet_struct
process_request-header h s a b more rest c q e handled =
    let fresh : Packet = record {
      head = 255;
      status = 255;
      control1 = 255;
      control2 = 255;
      data_section = [];
      datalen = 0;
    } in
    let c' : Conn = record c {
      pack = fresh;
      env = record c.env { allocated = c.env.allocated + 1 };
    } in
    rw (malloc-ok c.env q.memory) (
      rw (read_header-ok h s a b more rest c' e, add-one) (Returns-bind handled λ r c'' p. gives p))

-- What the client, the wire and the screen show of a request: the two flags, the answer, what is
-- left to read and the line that was printed.
pub record Answered (c : Conn) (tag : String) (inc out : ℕ) (reply : List ℕ) (left : List Arrival)
    (line : Printed) (c' : Conn) : Type 0 where
  pub inc_flag : c'.cli.inc_flag ≡ inc
  pub out_flag : c'.cli.out_flag ≡ out
  pub sent : c'.sock.sent ≡ c.sock.sent ++ reply
  pub inbox : c'.sock.inbox ≡ left
  pub shown : c'.env.shown ≡ c.env.shown ++ with_int tag c.cli.socket_fd ∷ line ∷ []
  pub tagged : HasTag c' tag
  pub memory : c'.env.mallocs ≡ []
  pub writes : c'.sock.accepts ≡ []

-- What is released are blocks, and nothing else changes.
pub free_segments-freed :
    (bs : List Buffer) (e : Env) → free_segments bs e ≡ record e { freed = e.freed + 2 * length bs }
unfolding free_segments free
free_segments-freed [] e = ap (λ n. record e { freed = n }) (omega arith)
free_segments-freed (b ∷ bs) e =
    rw (free_segments-freed bs (free (free e))) (ap (λ n. record e { freed = n }) (omega arith))

-- What a handler leaves behind, before its line is printed.
pub record Handled (c : Conn) (inc out : ℕ) (reply : List ℕ) (left : List Arrival) (c' : Conn)
    : Type 0 where
  pub inc_flag : c'.cli.inc_flag ≡ inc
  pub out_flag : c'.cli.out_flag ≡ out
  pub socket_fd : c'.cli.socket_fd ≡ c.cli.socket_fd
  pub sent : c'.sock.sent ≡ c.sock.sent ++ reply
  pub inbox : c'.sock.inbox ≡ left
  pub shown : c'.env.shown ≡ c.env.shown
  pub header_type : c'.env.header_type ≡ c.env.header_type
  pub memory : c'.env.mallocs ≡ []
  pub writes : c'.sock.accepts ≡ []

-- A handler that succeeds, a print function, and the release of the packet.
pub then_print-Answered :
    {inc out : ℕ} {reply : List ℕ} {left : List Arrival} (parse show : M ℤ) (tag : String)
    (line : Printed) (c c' c'' : Conn)
    → HasTag c tag
    → parse c' ≡ ok (pos 0) c''
    → (HasTag c'' tag
        → show c'' ≡ ok (pos 0) (after_print c'' (with_int tag c''.cli.socket_fd ∷ line ∷ [])))
    → Handled c inc out reply left c''
    → Returns
        (λ r d. (r ≡ pos 0) × Answered c tag inc out reply left line (released d))
        (then_print parse show c')
unfolding then_print ◌>>=◌ and_then unless_neg pure free
then_print-Answered parse show tag line c c' c'' t parses shows h =
    let t' : HasTag c'' tag = rw h.header_type t in
    rw (parses) (
      rw (shows t') (
        gives (
          refl,
          rw
              (free_segments-freed c''.pack.data_section
                (after_print c'' (with_int tag c''.cli.socket_fd ∷ line ∷ [])).env)
              (record {
                inc_flag = h.inc_flag;
                out_flag = h.out_flag;
                sent = h.sent;
                inbox = h.inbox;
                shown = rw (h.shown, h.socket_fd) refl;
                tagged = t';
                memory = h.memory;
                writes = h.writes;
              }),
        )))

abbrev pub answer_bytes : (granted : Bool) → (control1 : ℕ) → List ℕ
answer_bytes granted control1 = 0 ∷ (if granted then 6 else 21) ∷ control1 ∷ 0 ∷ []

pub after_call-Handled :
    (inc n head status control1 control2 : ℕ) (bs : List ℕ) (left : List Arrival) (c : Conn)
    → IsQuiet c
    → Handled c inc 0 bs left
        (after_call (with_inc_flag (taken c head status control1 control2 left) inc) n bs)
after_call-Handled inc n head status control1 control2 bs left c q = record {
  inc_flag = refl;
  out_flag = refl;
  socket_fd = refl;
  sent = refl;
  inbox = refl;
  shown = refl;
  header_type = refl;
  memory = q.memory;
  writes = q.writes;
}
