-- ===== src/Console.antt =====
-- src/chopclient.c: the main loop of the client, which takes what the server sends and turns lines
-- of its standard input into packets.
pub mod Commands
use chopserver.Base.{
  pos_part, ltb, ℕ, zero, suc, ◌+◌, ℤ, pos, negsuc, neg, is_neg, List, [], ◌∷◌, ◌&&◌, Option, none,
  some, set, length, take, if◌then◌else◌, ◌==◌, Bool, true, false,
}
use Prim.Native.String.{String}
use chopserver.Sockets.{SockAddr, Kernel, connect_to_server}
use chopserver.Manage.Establish.{establish_server_connection}
use chopserver.Structs.{
  Ref, Client, Packet, cancel, start_text, enquiry, enquiry_normal, enquiry_return, enquiry_time,
  enquiry_rtime, wakeup, idle, escape,
}
use chopserver.Env.{Env, plain}
use chopserver.Machine.{
  fd_setsize, Socket, Io, done, failed, Conn, M, Run, ok, fault, out_of_fuel, pure, gets, undefined,
  scan, unless_neg, ◌>>=◌, ◌>>◌,
}
use chopserver.Debug.{printf}
use chopserver.Data.Scan.{remove_newline}
use chopserver.Packet.Utility.{store_at}
use chopserver.Packet.Sending.{write_dataless, write_wordpack, write_datapack}
use chopserver.Manage.Request.{process_request, is_client_status}

-- The C string in an array: the bytes before the first null byte.
abbrev pub c_str : List ℕ → List ℕ
c_str [] = []
c_str (b ∷ bs) = let rest = c_str bs in if b == 0 then [] else b ∷ rest

-- `strcmp(s, t) == 0`, of two strings.
unfoldable pub same_str : List ℕ → List ℕ → Bool
same_str [] [] = true
same_str [] (y ∷ ys) = false
same_str (x ∷ xs) [] = false
same_str (x ∷ xs) (y ∷ ys) = (x == y) && same_str xs ys

abbrev pub exit_word : List ℕ
exit_word = b'e' ∷ b'x' ∷ b'i' ∷ b't' ∷ []

abbrev pub ping_word : List ℕ
ping_word = b'p' ∷ b'i' ∷ b'n' ∷ b'g' ∷ []

abbrev pub pingret_word : List ℕ
pingret_word = b'p' ∷ b'i' ∷ b'n' ∷ b'g' ∷ b'r' ∷ b'e' ∷ b't' ∷ []

abbrev pub pingtime_word : List ℕ
pingtime_word = b'p' ∷ b'i' ∷ b'n' ∷ b'g' ∷ b't' ∷ b'i' ∷ b'm' ∷ b'e' ∷ []

abbrev pub pingtimeret_word : List ℕ
pingtimeret_word = b'p' ∷ b'i' ∷ b'n' ∷ b'g' ∷ b't' ∷ b'i' ∷ b'm' ∷ b'e' ∷ b'r' ∷ b'e' ∷ b't' ∷ []

abbrev pub sleep_word : List ℕ
sleep_word = b's' ∷ b'l' ∷ b'e' ∷ b'e' ∷ b'p' ∷ []

abbrev pub wake_word : List ℕ
wake_word = b'w' ∷ b'a' ∷ b'k' ∷ b'e' ∷ []

-- The packet for a line; `buffer` is the array of 127 bytes that it stands in.
unfoldable pub send_line : (buffer : List ℕ) → M ℤ
unfolding same_str
send_line buffer = do
  now ← gets (λ c. c.env.clock)
  if same_str (c_str buffer) exit_word
      then write_dataless Ref.here 0 escape 0 0
      else if same_str (c_str buffer) ping_word
      then write_dataless Ref.here 0 enquiry enquiry_normal 0
      else if same_str (c_str buffer) pingret_word
      then write_dataless Ref.here 0 enquiry enquiry_return 0
      else if same_str (c_str buffer) pingtime_word
      then write_wordpack Ref.here 0 enquiry enquiry_time 8 now
      else if same_str (c_str buffer) pingtimeret_word
      then write_dataless Ref.here 0 enquiry enquiry_rtime 0
      else if same_str (c_str buffer) sleep_word
      then write_dataless Ref.here 0 idle 0 0
      else if same_str (c_str buffer) wake_word
      then write_dataless Ref.here 0 wakeup 0 0
      else write_datapack Ref.here 0 start_text 1 127 (some buffer) (pos 127)

-- What a turn of the loop comes to: another turn, `exit(1)`, or the end of the loop.
pub data Next : Type 0 where
  again : Next
  exit_1 : Next
  leave_loop : Next

-- A failure ends the process.
abbrev pub or_exit : M ℤ → M Next
or_exit m = do r ← m; if is_neg r then pure exit_1 else pure again

-- From the search for the newline on.
unfoldable pub take_line : Option (ℤ × List ℕ) → M Next
unfolding send_line
take_line none = undefined scan
take_line (some (found, buffer)) = if is_neg found then pure exit_1 else or_exit (send_line buffer)

-- What `read(STDIN_FILENO, buffer, 126)` brings: a failure, or bytes, of which it stores 126 at
-- most. `stale` are the 127 bytes of the array before.
unfoldable pub read_stdin : Io (List ℕ) → (stale : List ℕ) → M Next
unfolding take_line
read_stdin (failed e) stale = take_line (remove_newline (some (set stale 126 0)) (neg 1))
read_stdin (done typed) stale =
    let bs = take 126 typed in
    if length bs == 0
    then pure leave_loop
    else take_line (remove_newline (some (set (store_at 0 bs stale) 126 0)) (pos (length bs)))

-- The part of a turn that reads from the server.
unfoldable pub read_server : (ready : Bool) → M Next
read_server false = pure again
read_server true = do
  r ← process_request Ref.here Ref.here
  cli ← gets (λ c. c.cli)
  if is_neg r
      then pure exit_1
      else if is_client_status Ref.here cli (pos cancel)
      then pure exit_1
      else pure again

-- The part of a turn that reads from the standard input, if there is something.
unfoldable pub read_user : Option (Io (List ℕ) × List ℕ) → Next → M Next
unfolding read_stdin
read_user typed exit_1 = pure exit_1
read_user typed leave_loop = pure leave_loop
read_user none again = pure again
read_user (some (typed, stale)) again = read_stdin typed stale

-- What a turn meets: `select` fails, or it returns with what is ready. `main` attaches no handler of
-- SIGINT, so that `sigint_received` stays 0.
pub data ClientEvent : Type 0 where
  select_fails : ℕ → ClientEvent
  selects : (from_server : Bool) → (from_user : Option (Io (List ℕ) × List ℕ)) → ClientEvent

-- One turn of the loop.
unfoldable pub client_turn : ClientEvent → M Next
unfolding read_server read_user
client_turn (select_fails e) = do printf (plain "\n"); pure exit_1
client_turn (selects from_server from_user) = do
  printf (plain "\n")
  n ← read_server from_server
  read_user from_user n

-- What follows a turn that has not ended the loop.
unfoldable pub and_again : Next → M Next → M Next
and_again again rest = rest
and_again exit_1 rest = pure exit_1
and_again leave_loop rest = pure leave_loop

-- `while (run)`: the turns in order.
unfoldable pub client_loop : List ClientEvent → M Next
unfolding client_turn and_again
client_loop [] = pure again
client_loop (event ∷ events) = do next ← client_turn event; and_again next (client_loop events)

-- `PORT`, `BUFSIZE` and `ADDRESS`
abbrev pub port : ℕ
port = 50001

abbrev pub bufsize : ℕ
bufsize = 255

abbrev pub address : String
address = "127.0.0.1"

-- What precedes the loop: `exit(1)`, or the connection with the set of descriptors to wait for and
-- the largest of them; `crashes` would be the use of a connection that is NULL, or
-- `FD_SET` on a descriptor that an `fd_set` has no room for.
pub data Started : Type 0 where
  stops : Env → Started
  ready : Conn → (all_fds : List ℤ) → (max_fd : ℤ) → Started
  crashes : Started

-- The packet that stands in the connection before the first request is not looked at.
abbrev pub no_packet : Packet
no_packet = record {
  head = 0;
  status = 0;
  control1 = 0;
  control2 = 0;
  data_section = [];
  datalen = 0;
}

abbrev pub session : Client → Socket → Env → Conn
session cli sock env = record { cli = cli; sock = sock; pack = no_packet; env = env }

-- `STDIN_FILENO` is 0.
unfoldable pub entered : ℤ × Option Client × Env → Socket → Started
entered (negsuc n, server_connection, env) sock = stops env
entered (pos n, none, env) sock = crashes
entered (pos n, some cli, env) sock =
    if ltb (pos_part cli.socket_fd) fd_setsize
    then ready (session cli sock env) (cli.socket_fd ∷ pos 0 ∷ []) cli.socket_fd
    else crashes

-- `old` is what stands in the address before, and `sock` the socket that the server answers on.
unfoldable pub client_start : Kernel → (old : SockAddr) → Socket → Env → Started
unfolding entered
client_start k old sock env =
    let (connected, addr, made) = connect_to_server Ref.here old (some address) (pos port) k in
    entered
      (establish_server_connection Ref.here (pos port) Ref.here (pos bufsize) connected none
        (record env { header_type = 1 }))
      sock
