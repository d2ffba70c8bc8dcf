-- ===== src/Manage/Request/Bounded.antt =====
-- A request stays inside the arrays that it uses, whatever the peer sends.
use chopserver.Base.{ℕ, ◌<◌, ◌^◌, Bool-cases, inl, inr, is_neg, some}
use chopserver.Structs.{Ref, Packet}
use chopserver.Env.{Env, malloc}
use chopserver.Memory.{Init, made, refused, init_packet_struct}
use chopserver.Machine.{Conn, Run, ok, fault, Fault, in_env, ◌>>=◌}
use chopserver.Machine.Leads.{Leads}
use chopserver.Packet.Sending.{destroy}
use chopserver.Stable.Memory.{init_packet_struct-SameEnv, destroy_packet_struct-SameEnv}
use chopserver.Fit.Segments.{AllFit, IsFit}
use chopserver.Fit.Rules.{
  Fits, returned, starved, unprintable, IsUnprintable, Fit, Fit-pure, Fit-gets, Fit-if, Fit-bind,
  Fit-unless_neg, Fit-in_env, Fit-set_packet,
}
use chopserver.Fit.Reading.{read_header-Fit}
use chopserver.Fit.Parsing.{parse_header-Fit}
use chopserver.Manage.Request.{receive, receive_packet, process_request}
use chopserver.Manage.Request.Keeps.{process_request-Keeps}

-- The run returns with a postcondition, or meets undefined behaviour of some kinds only.
pub data ReturnsUnless {A : Type 0} (F : Fault → Type 0) (P : A → Conn → Type 0)
    : Run A → Type 0 where
  gives : {a : A} {c : Conn} → P a c → ReturnsUnless F P (ok a c)
  meets : {f : Fault} → F f → ReturnsUnless F P (fault f)

-- A run that ends and fits returns, unless what it prints is undefined.
Fits-ReturnsUnless :
    {A : Type 0} {P Q : A → Conn → Type 0} {r : Run A}
    → Leads Q r
    → Fits P r
    → ReturnsUnless IsUnprintable P r
Fits-ReturnsUnless ends (returned p) = gives p
Fits-ReturnsUnless ends starved = elim ends [ ]
Fits-ReturnsUnless ends (unprintable u) = meets u

-- A new packet has no segments.
abbrev IsFresh : Init Packet → Type 0
IsFresh (refused code) = Unit
IsFresh (made new) = AllFit new.data_section

init_packet_struct-IsFresh : (e : Env) → IsFresh (init_packet_struct Ref.here e).0
unfolding init_packet_struct
init_packet_struct-IsFresh e = elim (Bool-cases (malloc e).0) [
  | inl got ↦ rw got tt
  | inr lacking ↦ rw lacking tt
]

module _ (most : ℕ) (small : most < 2 ^ 31) where
  destroy-Fit : (out : Packet) → Fit most (destroy out)
  unfolding destroy
  destroy-Fit out =
      Fit-in_env most _ λ e. (destroy_packet_struct-SameEnv Ref.here (some out) e).header_type

  receive-Fit : (cli : Ref) → Fit most (receive cli)
  unfolding receive
  receive-Fit cli = Fit-bind most _ _ (read_header-Fit most cli _) λ status.
      Fit-if most (is_neg status) _ _ (Fit-pure most _)
        (Fit-bind most _ _ (Fit-gets most _) λ fuel. parse_header-Fit most fuel small cli _)

  receive_packet-Fit : (cli : Ref) (p : Init Packet) → IsFresh p → Fit most (receive_packet cli p)
  unfolding receive_packet
  receive_packet-Fit cli (refused code) fresh = Fit-pure most _
  receive_packet-Fit cli (made new) fresh = Fit-bind most _ _ (Fit-set_packet most new fresh) λ _.
      Fit-bind most _ _ (receive-Fit cli) λ status.
        Fit-bind most _ _ (Fit-gets most _)
          λ pack. Fit-unless_neg most _ _ _ (destroy-Fit pack) λ _. Fit-pure most _

  process_request-Fit : Fit most (process_request Ref.here Ref.here)
  unfolding process_request in_env ◌>>=◌
  process_request-Fit = record {
    at = λ c h.
        let same = (init_packet_struct-SameEnv Ref.here c.env).header_type in
        (receive_packet-Fit Ref.here _ (init_packet_struct-IsFresh c.env)).at _ (record {
          header = rw same h.header;
          window = h.window;
          left = h.left;
          segments = h.segments;
        });
  }

  -- On a client whose window has room for a `time_t`, on a side that has a name for its messages,
  -- with fewer than 2 ^ 31 bytes to come, `process_request` returns, whatever those bytes are and
  -- however the socket and the allocator behave, or meets undefined behaviour in what it prints,
  -- which is one of three: it reads a name outside the table of names, it hands `printf` a null
  -- pointer for a `%s`, or it prints a `time_t` of which not all bytes have come. It meets no other
  -- undefined behaviour that the model has (no `int` overflows, nothing is divided by 0, no `time_t`
  -- is read from a shorter array, no scan leaves its array). When it returns, every segment that it filled
  -- holds no more bytes than its array has and counts no more than were stored, and the conditions
  -- hold again.
  pub process_request-IsFit :
      (c : Conn)
      → IsFit most c
      → ReturnsUnless IsUnprintable (λ _. IsFit most) (process_request Ref.here Ref.here c)
  process_request-IsFit c h =
      Fits-ReturnsUnless (process_request-Keeps Ref.here Ref.here c) (process_request-Fit.at c h)
