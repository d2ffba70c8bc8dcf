-- ===== src/Serve/Heard.antt =====
-- What the clients of a server have to say at the start of a turn, and what comes of it.
use Prim.Native.String.{String}
use chopserver.Base.{
  ℕ, ◌≤◌, ◌≡◌, ◌∙◌, sym, ap, ℤ, List, [], ◌++◌, Option, none, some, get_elem?, true, false, ◌==◌,
  Bool,
}
use chopserver.Structs.{Client}
use chopserver.Memory.{is_open}
use chopserver.Machine.{Arrival}
use chopserver.Data.Transfer.Rounds.{stream}
use chopserver.Debug.{all_headers}
use chopserver.Protocol.{Message, encode, encode_all, IsProper, Mode, Stance, stays, left, handle}
use chopserver.Protocol.Ends.{flag_of}
use chopserver.Serve.{Host, same_fd, fd_isset}
use chopserver.Serve.Passing.{IsPassed}

-- A message that has come whole to a client's socket, and what has come behind it.
pub record Speech : Type 0 where
  pub mode : Mode
  pub message : Message
  pub more : List ℕ
  pub rest : List Arrival

abbrev pub Holds : Host → ℕ → Client → Type 0
Holds h j c = get_elem? h.server.clients j ≡ some (some c)

-- The client in slot `j` is in the mode of the speech, and is ready to be read.
pub record Speaks (fds : List ℤ) (s : Speech) (j : ℕ) (c : Client) (h : Host) : Type 0 where
  pub at : Holds h j c
  pub open_fd : is_open c.socket_fd ≡ true
  pub chosen : fd_isset c.socket_fd fds ≡ true
  pub window : 8 ≤ c.window
  pub flag : c.inc_flag ≡ flag_of s.mode
  pub proper : IsProper s.message
  pub writes : (h.sockets c.socket_fd).accepts ≡ []
  pub arrived : (h.sockets c.socket_fd).inbox ≡ stream (encode s.message ++ s.more) s.rest

-- Slot `j` has a client that speaks, or the loop passes it over.
abbrev pub Heard : (fds : List ℤ) → Option Speech → (j : ℕ) → Host → Type 0
Heard fds none j h =
    (slot : Option Client) → get_elem? h.server.clients j ≡ some slot → IsPassed fds slot
Heard fds (some s) j h = (c : Client) × Speaks fds s j c h

-- Memory is to be had, and there is a header for what is printed.
pub record IsAble (tag : String) (clock : ℕ) (h : Host) : Type 0 where
  pub memory : h.env.mallocs ≡ []
  pub tagged : get_elem? all_headers h.env.header_type ≡ some tag
  pub ticks : h.env.clock ≡ clock

-- No two clients have one descriptor.
abbrev pub Distinct : Host → Type 0
Distinct h =
    (j k : ℕ) (c d : Client)
    → (j == k) ≡ false
    → Holds h j c
    → Holds h k d
    → same_fd c.socket_fd d.socket_fd ≡ false

abbrev pub IsSeatedIn : Stance → (j : ℕ) → Client → Host → Type 0
IsSeatedIn (stays mode) j c h' =
    (c' : Client) × Holds h' j c' × (c'.inc_flag ≡ flag_of mode) × (c'.socket_fd ≡ c.socket_fd)
IsSeatedIn left j c h' =
    (get_elem? h'.server.clients j ≡ some none) × (fd_isset c.socket_fd h'.env.closed ≡ true)

abbrev pub still_waits : Stance → Bool → Bool
still_waits (stays mode) waited = waited
still_waits left waited = false

-- The client was answered as the protocol says.
pub record Replied (stance : Stance) (answers : List Message) (inbox : List Arrival) (j : ℕ)
    (c : Client) (h h' : Host) : Type 0 where
  pub seat : IsSeatedIn stance j c h'
  pub sent : (h'.sockets c.socket_fd).sent ≡ (h.sockets c.socket_fd).sent ++ encode_all answers
  pub unread : (h'.sockets c.socket_fd).inbox ≡ inbox
  pub waiting :
      fd_isset c.socket_fd h'.all_fds ≡ still_waits stance (fd_isset c.socket_fd h.all_fds)

-- What has become of slot `j`: a client that spoke was answered; a slot without one is as it was.
abbrev pub Outcome : (clock : ℕ) → Option Speech → (j : ℕ) → (h h' : Host) → Type 0
Outcome clock none j h h' = get_elem? h'.server.clients j ≡ get_elem? h.server.clients j
Outcome clock (some s) j h h' =
    (c : Client)
    → Holds h j c
    → Replied (handle clock s.mode s.message).0 (handle clock s.mode s.message).1
        (stream s.more s.rest) j c h h'

-- Two hosts have the same for a descriptor.
pub record Agree (h h' : Host) (fd : ℤ) : Type 0 where
  pub socket : h'.sockets fd ≡ h.sockets fd
  pub waits : fd_isset fd h'.all_fds ≡ fd_isset fd h.all_fds

pub Agree-trans : {h h1 h' : Host} {fd : ℤ} → Agree h h1 fd → Agree h1 h' fd → Agree h h' fd
Agree-trans a b = record { socket = b.socket ∙ a.socket; waits = b.waits ∙ a.waits }

-- What was closed stays closed.
abbrev pub StaysClosed : (h h' : Host) → Type 0
StaysClosed h h' = (x : ℤ) → fd_isset x h.env.closed ≡ true → fd_isset x h'.env.closed ≡ true

IsSeatedIn-later :
    (stance : Stance) (j : ℕ) (c : Client) (h1 h' : Host)
    → get_elem? h'.server.clients j ≡ get_elem? h1.server.clients j
    → StaysClosed h1 h'
    → IsSeatedIn stance j c h1
    → IsSeatedIn stance j c h'
IsSeatedIn-later (stays mode) j c h1 h' same closes (c', holds, flag, fd) =
    (c', same ∙ holds, flag, fd)
IsSeatedIn-later left j c h1 h' same closes (empty, closed) =
    (same ∙ empty, closes c.socket_fd closed)

-- What comes later and leaves the slot and its descriptor alone leaves the outcome.
pub Outcome-later :
    (clock : ℕ) (o : Option Speech) (j : ℕ) (h h1 h' : Host)
    → get_elem? h'.server.clients j ≡ get_elem? h1.server.clients j
    → ((c : Client) → Holds h j c → Agree h1 h' c.socket_fd)
    → StaysClosed h1 h'
    → Outcome clock o j h h1
    → Outcome clock o j h h'
Outcome-later clock none j h h1 h' same agree closes out = same ∙ out
Outcome-later clock (some s) j h h1 h' same agree closes out = λ c holds.
    let r = out c holds in
    let a = agree c holds in
    record {
      seat = IsSeatedIn-later (handle clock s.mode s.message).0 j c h1 h' same closes r.seat;
      sent = rw a.socket r.sent;
      unread = rw a.socket r.unread;
      waiting = a.waits ∙ r.waiting;
    }

-- What came before and left the slot and its descriptor alone makes no difference.
pub Outcome-earlier :
    (clock : ℕ) (o : Option Speech) (j : ℕ) (h h1 h' : Host)
    → get_elem? h1.server.clients j ≡ get_elem? h.server.clients j
    → ((c : Client) → Holds h j c → Agree h h1 c.socket_fd)
    → Outcome clock o j h1 h'
    → Outcome clock o j h h'
Outcome-earlier clock none j h h1 h' same agree out = out ∙ same
Outcome-earlier clock (some s) j h h1 h' same agree out = λ c holds.
    let r = out c (same ∙ holds) in
    let a = agree c holds in
    record {
      seat = r.seat;
      sent = rw (← a.socket) r.sent;
      unread = r.unread;
      waiting = r.waiting ∙ ap (still_waits (handle clock s.mode s.message).0) a.waits;
    }

pub Heard-later :
    (fds : List ℤ) (o : Option Speech) (j : ℕ) (h h1 : Host)
    → get_elem? h1.server.clients j ≡ get_elem? h.server.clients j
    → ((c : Client) → Holds h j c → Agree h h1 c.socket_fd)
    → Heard fds o j h
    → Heard fds o j h1
Heard-later fds none j h h1 same agree heard = λ slot at. heard slot (sym same ∙ at)
Heard-later fds (some s) j h h1 same agree (c, k) =
    let a = agree c k.at in
    (
      c,
      record {
        at = same ∙ k.at;
        open_fd = k.open_fd;
        chosen = k.chosen;
        window = k.window;
        flag = k.flag;
        proper = k.proper;
        writes = rw a.socket k.writes;
        arrived = rw a.socket k.arrived;
      },
    )
