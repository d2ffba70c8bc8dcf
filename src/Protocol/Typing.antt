-- ===== src/Protocol/Typing.antt =====
-- A command that is typed at the client, through the server and back.

use mathlib.Core.List.{append-nil}
use chopserver.Base.{
  ℕ, ◌≡◌, ◌∙◌, refl, sym, ap, ℤ, List, [], ◌∷◌, ◌++◌, some, true, false, length, drop, drop_append,
  get_elem?,
}
use chopserver.Structs.{Client}
use chopserver.Env.{plain}
use chopserver.Memory.{is_open}
use chopserver.Machine.{Arrival, done, ok, Conn}
use chopserver.Machine.Leads.{Returns}
use chopserver.Data.Transfer.Rounds.{stream}
use chopserver.Packet.Sending.Exact.{after_call}
use chopserver.Packet.Receiving.Exact.{after_print}
use chopserver.Manage.Request.Exchange.{new_bytes, deliver}
use chopserver.Console.{again, selects, client_turn, client_loop}
use chopserver.Console.Commands.{IsCommand, client_turn-IsCommand}
use chopserver.Protocol.{
  Message, enquire, enquire_back, ask_time, sleep, wake, leave, encode, encode_all, IsProper,
  Stance, AllProper, Mode, awake, asleep, handle, converse,
}
use chopserver.Protocol.Ends.{flag_of, IsFluent, Went}
use chopserver.Protocol.Talking.{turns, next_of}
use chopserver.Protocol.Looping.{client_loop-converse}
use chopserver.Serve.{Host, goes, with_socket, fd_isset, connection, serve_slot}
use chopserver.Serve.Talking.{Served, serve_slot-handle, same_fd_refl}

-- The message that a command asks for.
abbrev pub message_of :
    {word : List ℕ} {status control1 : ℕ} → IsCommand word status control1 → Message
message_of IsCommand.leave = leave
message_of IsCommand.ping = enquire
message_of IsCommand.ping_back = enquire_back
message_of IsCommand.ping_time_back = ask_time
message_of IsCommand.sleep = sleep
message_of IsCommand.wake = wake

encode-message_of :
    {word : List ℕ} {status control1 : ℕ} (k : IsCommand word status control1)
    → encode (message_of k) ≡ 0 ∷ status ∷ control1 ∷ 0 ∷ []
unfolding encode
encode-message_of IsCommand.leave = refl
encode-message_of IsCommand.ping = refl
encode-message_of IsCommand.ping_back = refl
encode-message_of IsCommand.ping_time_back = refl
encode-message_of IsCommand.sleep = refl
encode-message_of IsCommand.wake = refl

-- What is answered to a command is a message with its data.
handle-AllProper :
    {word : List ℕ} {status control1 : ℕ} (clock : ℕ) (mode : Mode)
    (k : IsCommand word status control1)
    → AllProper (handle clock mode (message_of k)).1
unfolding handle
handle-AllProper clock mode IsCommand.leave = (tt, tt)
handle-AllProper clock mode IsCommand.ping = (tt, tt)
handle-AllProper clock mode IsCommand.ping_back = (tt, tt)
handle-AllProper clock mode IsCommand.ping_time_back = (tt, tt)
handle-AllProper clock awake IsCommand.sleep = (tt, tt)
handle-AllProper clock asleep IsCommand.sleep = (tt, tt)
handle-AllProper clock awake IsCommand.wake = (tt, tt)
handle-AllProper clock asleep IsCommand.wake = (tt, tt)

-- Bytes arrive at the server on a descriptor.
abbrev pub arrives : ℤ → List ℕ → Host → Host
arrives fd bs h = record h {
  sockets = with_socket fd (record (h.sockets fd) { inbox = stream bs [] }) h.sockets;
}

-- What the server has sent on a descriptor.
abbrev pub replied : ℤ → (before after : Host) → List ℕ
replied fd before after = drop (length (before.sockets fd).sent) (after.sockets fd).sent

-- A client in a slot of the server, in a mode, ready to be read.
pub record IsPresent (clock : ℕ) (mode : Mode) (i : ℕ) (c : Client) (listen_fds : List ℤ) (h : Host)
    : Type 0 where
  pub at : get_elem? h.server.clients i ≡ some (some c)
  pub open_fd : is_open c.socket_fd ≡ true
  pub ready : fd_isset c.socket_fd listen_fds ≡ true
  pub fluent : IsFluent "[CLIENT %d]" clock (connection c h)
  pub flag : c.inc_flag ≡ flag_of mode

-- How a command went: what the client has after the line was typed, and the server after it took
-- what the client had sent.
pub record Typed (clock clock' : ℕ) (mode mode' : Mode) (m : Message) (i : ℕ) (c : Client)
    (listen_fds : List ℤ) (h : Host) (a a1 : Conn) : Type 0 where
  pub host : Host
  pub serves :
      serve_slot (some (some c)) i listen_fds (arrives c.socket_fd (new_bytes a a1) h) ≡ goes host
  pub served :
      Served
        (handle clock' mode' m).0
        (handle clock' mode' m).1
        []
        i
        c
        (arrives c.socket_fd (new_bytes a a1) h)
        host
  pub ends :
      let course = converse clock mode (handle clock' mode' m).1 in
      Returns
        (λ n a2.
          (n ≡ next_of course.stance)
          × Went "[SERVER %d]" clock course.stance course.answers
              (stream (encode_all course.untaken ++ []) [])
              (deliver (replied c.socket_fd h host) a1)
              a2)
        (client_loop (turns (handle clock' mode' m).1) (deliver (replied c.socket_fd h host) a1))

arrives-IsFluent :
    (clock : ℕ) (bs : List ℕ) (c : Client) (h : Host)
    → IsFluent "[CLIENT %d]" clock (connection c h)
    → IsFluent "[CLIENT %d]" clock (connection c (arrives c.socket_fd bs h))
arrives-IsFluent clock bs c h f = record {
  quiet = record { memory = f.quiet.memory; writes = rw (same_fd_refl c.socket_fd) f.quiet.writes };
  tagged = f.tagged;
  window = f.window;
  ticks = f.ticks;
}

deliver-IsFluent :
    (clock : ℕ) (bs : List ℕ) (a : Conn)
    → IsFluent "[SERVER %d]" clock a
    → IsFluent "[SERVER %d]" clock (deliver bs a)
deliver-IsFluent clock bs a f = record {
  quiet = record { memory = f.quiet.memory; writes = f.quiet.writes };
  tagged = f.tagged;
  window = f.window;
  ticks = f.ticks;
}

-- The client after the line was typed.
abbrev pub typed : (status control1 : ℕ) → Conn → Conn
typed status control1 a =
    after_call (after_print a (plain "\n" ∷ [])) 1 (0 ∷ status ∷ control1 ∷ 0 ∷ [])

typed-IsFluent :
    (clock status control1 : ℕ) (a : Conn)
    → IsFluent "[SERVER %d]" clock a
    → IsFluent "[SERVER %d]" clock (typed status control1 a)
typed-IsFluent clock status control1 a f = record {
  quiet = record { memory = f.quiet.memory; writes = f.quiet.writes };
  tagged = f.tagged;
  window = f.window;
  ticks = f.ticks;
}

message_of-IsProper :
    {word : List ℕ} {status control1 : ℕ} (k : IsCommand word status control1)
    → IsProper (message_of k)
message_of-IsProper IsCommand.leave = tt
message_of-IsProper IsCommand.ping = tt
message_of-IsProper IsCommand.ping_back = tt
message_of-IsProper IsCommand.ping_time_back = tt
message_of-IsProper IsCommand.sleep = tt
message_of-IsProper IsCommand.wake = tt

-- What the client has sent is the message.
new_bytes-typed :
    {word : List ℕ} {status control1 : ℕ} (k : IsCommand word status control1) (a : Conn)
    → new_bytes a (typed status control1 a) ≡ encode (message_of k) ++ []
new_bytes-typed {status} {control1} k a =
    drop_append a.sock.sent (0 ∷ status ∷ control1 ∷ 0 ∷ [])
    ∙ sym (append-nil (encode (message_of k)) ∙ encode-message_of k)

arrives-Served :
    {bs : List ℕ} (clock : ℕ) (mode : Mode) (m : Message) (i : ℕ) (c : Client) (listen_fds : List ℤ)
    (h : Host)
    → bs ≡ encode m ++ []
    → IsProper m
    → IsPresent clock mode i c listen_fds h
    → (h' : Host) × (serve_slot (some (some c)) i listen_fds (arrives c.socket_fd bs h) ≡ goes h')
      × Served (handle clock mode m).0 (handle clock mode m).1 [] i c (arrives c.socket_fd bs h) h'
unfolding stream
arrives-Served {bs} clock mode m i c listen_fds h e proper there =
    serve_slot-handle "[CLIENT %d]" clock mode m [] [] i c listen_fds (arrives c.socket_fd bs h)
      there.at there.open_fd there.ready (arrives-IsFluent clock bs c h there.fluent) there.flag
      proper (rw (same_fd_refl c.socket_fd) (ap (λ l. stream l []) e))

-- What the server has answered are the answers.
replied-Served :
    {stance : Stance} (answers : List Message) (bs : List ℕ) (inbox : List Arrival) (i : ℕ)
    (c : Client) (h h' : Host)
    → Served stance answers inbox i c (arrives c.socket_fd bs h) h'
    → replied c.socket_fd h h' ≡ encode_all answers ++ []
replied-Served answers bs inbox i c h h' served =
    let sent : (h'.sockets c.socket_fd).sent ≡ (h.sockets c.socket_fd).sent ++ encode_all answers =
      rw (same_fd_refl c.socket_fd) at served.sent in
    ap (λ l. drop (length (h.sockets c.socket_fd).sent) l) sent
    ∙ drop_append (h.sockets c.socket_fd).sent (encode_all answers)
    ∙ sym (append-nil (encode_all answers))

-- Where client and server have memory and write without failures, a line with one of the words
-- `exit`, `ping`, `pingret`, `pingtimeret`, `sleep` and `wake` makes the client send the message of
-- the word; the server takes it in the client's slot as the protocol says from the mode that the
-- server has the client in; and the client takes the answers as the protocol says from its own
-- mode, so that its process ends exactly where the protocol says that its end has left.
pub client_turn-Typed :
    {word : List ℕ} {status control1 : ℕ} (k : IsCommand word status control1) (clock clock' : ℕ)
    (mode mode' : Mode) (stale : List ℕ) (a : Conn) (i : ℕ) (c : Client) (listen_fds : List ℤ)
    (h : Host)
    → IsFluent "[SERVER %d]" clock a
    → a.cli.inc_flag ≡ flag_of mode
    → IsPresent clock' mode' i c listen_fds h
    → (client_turn (selects false (some (done (word ++ 10 ∷ []), stale))) a
        ≡ ok again (typed status control1 a))
      × Typed clock clock' mode mode' (message_of k) i c listen_fds h a (typed status control1 a)
client_turn-Typed {status} {control1} k clock clock' mode mode' stale a i c listen_fds h f at
      there =
    let m = message_of k in
    let a1 = typed status control1 a in
    let (host, serves, served) =
      arrives-Served clock' mode' m i c listen_fds h (new_bytes-typed k a) (message_of-IsProper k)
        there in
    let answers = (handle clock' mode' m).1 in
    let reply = replied c.socket_fd h host in
    (
      client_turn-IsCommand stale a k f.quiet,
      record {
        host = host;
        serves = serves;
        served = served;
        ends =
            client_loop-converse "[SERVER %d]" clock mode answers [] [] (deliver reply a1)
              (deliver-IsFluent clock reply a1 (typed-IsFluent clock status control1 a f)) at
              (handle-AllProper clock' mode' k)
              (ap (λ l. stream l [])
                (replied-Served answers (new_bytes a a1) [] i c h host served));
      },
    )
