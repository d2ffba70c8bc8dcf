-- ===== src/Serve.antt =====
-- src/chopserver.c: the main loop of the server, one turn of which takes a request of every client
-- that is ready and accepts a connection if one waits.
pub mod Sound
pub mod Turns
pub mod Welcoming
pub mod Safe
pub mod Calm
pub mod Leaving
pub mod Talking
pub mod Passing
pub mod Heard
pub mod Stepping
pub mod Each
use Prim.Native.String.{String}
use chopserver.Base.{
  ℕ, zero, suc, ◌+◌, ℤ, pos, negsuc, neg, is_neg, List, [], ◌∷◌, Option, none, some, get_elem?, set,
  if◌then◌else◌, ◌==◌, ◌||◌, Bool, true, false, ltb, leb, pos_part,
}
use chopserver.Structs.{Ref, Client, Packet, Server, cancel}
use chopserver.Env.{Env, Printed, plain, with_int, print}
use chopserver.Memory.{Init, made, refused, init_server_struct}
use chopserver.Machine.{
  Io, done, failed, Socket, Conn, Fault, slots, fd_set, fd_setsize, Run, ok, fault, out_of_fuel,
}
use chopserver.Manage.Request.{process_request, is_client_status}
use chopserver.Manage.Clients.{
  Defined, returns, undefined_by, accept_new_client, remove_client_index,
}

-- The globals and the locals of `main`: the server, the sockets behind the descriptors, the set of
-- descriptors to wait for and the largest of them.
pub record Host : Type 0 where
  pub server : Server
  pub sockets : ℤ → Socket
  pub all_fds : List ℤ
  pub max_fd : ℤ
  pub env : Env

-- Where a turn ends: at the next turn, in `exit`, in undefined behaviour, or out of fuel.
pub data Turn : Type 0 where
  goes : Host → Turn
  exits : Env → Turn
  faulty : Fault → Turn
  starved : Turn

unfoldable pub and_next : Turn → (Host → Turn) → Turn
and_next (goes host) next = next host
and_next (exits env) next = exits env
and_next (faulty f) next = faulty f
and_next starved next = starved

abbrev pub same_fd : ℤ → ℤ → Bool
same_fd (pos m) (pos n) = m == n
same_fd (pos m) (negsuc n) = false
same_fd (negsuc m) (pos n) = false
same_fd (negsuc m) (negsuc n) = m == n

-- `FD_ISSET`, `FD_CLR`, and the descriptors that are ready.
unfoldable pub fd_isset : ℤ → List ℤ → Bool
fd_isset fd [] = false
fd_isset fd (x ∷ fds) = same_fd fd x || fd_isset fd fds

unfoldable pub fd_clr : ℤ → List ℤ → List ℤ
fd_clr fd [] = []
fd_clr fd (x ∷ fds) = if same_fd fd x then fd_clr fd fds else x ∷ fd_clr fd fds

unfoldable pub ready_of : (ℤ → Bool) → List ℤ → List ℤ
ready_of ready [] = []
ready_of ready (x ∷ fds) = if ready x then x ∷ ready_of ready fds else ready_of ready fds

abbrev pub with_socket : ℤ → Socket → (ℤ → Socket) → ℤ → Socket
with_socket fd sock sockets x = if same_fd fd x then sock else sockets x

-- `remove_client_index(index, host)`, whose result is not looked at.
unfoldable pub removed : Host → Option (ℤ × Server × Env) → Turn
removed host none = faulty slots
removed host (some (r, server, env)) = goes (record host { server = server; env = env })

unfoldable pub drop_client : (index : ℕ) → (fd : ℤ) → Host → Turn
unfolding removed
drop_client index fd host =
    let env = print (with_int "[CLIENT %d] Connection closed.\n" fd) host.env in
    removed (record host { all_fds = fd_clr fd host.all_fds })
      (remove_client_index (pos index) Ref.here host.server env)

-- The client's slot, its socket and the environment after a request, and the test of its flags.
unfoldable pub after_request : (index : ℕ) → (fd : ℤ) → Host → Run ℤ → Turn
unfolding drop_client
after_request index fd host (ok status c) =
    let host' = record host {
      server = record host.server { clients = set host.server.clients index (some c.cli) };
      sockets = with_socket fd c.sock host.sockets;
      env = c.env;
    } in
    if is_client_status Ref.here c.cli (pos cancel) then drop_client index fd host' else goes host'
after_request index fd host (fault f) = faulty f
after_request index fd host out_of_fuel = starved

-- The packet that stands in the connection before the request is not looked at.
abbrev pub no_packet : Packet
no_packet = record {
  head = 0;
  status = 0;
  control1 = 0;
  control2 = 0;
  data_section = [];
  datalen = 0;
}

abbrev pub connection : Client → Host → Conn
connection client host = record {
  cli = client;
  sock = host.sockets client.socket_fd;
  pack = no_packet;
  env = host.env;
}

unfoldable pub serve_slot :
    Option (Option Client) → (index : ℕ) → (listen_fds : List ℤ) → Host → Turn
unfolding after_request
serve_slot none index listen_fds host = faulty slots
serve_slot (some none) index listen_fds host = goes host
serve_slot (some (some client)) index listen_fds host =
    if fd_isset client.socket_fd listen_fds
    then after_request index client.socket_fd host
        (process_request Ref.here Ref.here (connection client host))
    else goes host

-- `rounds` is `max_connections - index`.
unfoldable pub serve_clients : (rounds index : ℕ) → (listen_fds : List ℤ) → Host → Turn
unfolding serve_slot and_next
serve_clients zero index listen_fds host = goes host
serve_clients (suc rounds) index listen_fds host =
    and_next (serve_slot (get_elem? host.server.clients index) index listen_fds host)
      λ host'. serve_clients rounds (index + 1) listen_fds host'

-- What `accept` returns, and the socket behind the descriptor.
abbrev pub accepted_fd : Io (ℕ × Socket) → Io ℕ
accepted_fd (done (fd, sock)) = done fd
accepted_fd (failed e) = failed e

abbrev pub accepted_sockets : Io (ℕ × Socket) → (ℤ → Socket) → ℤ → Socket
accepted_sockets (done (fd, sock)) sockets = with_socket (pos fd) sock sockets
accepted_sockets (failed e) sockets = sockets

abbrev pub larger_fd : (client_fd : ℕ) → ℤ → ℤ
larger_fd client_fd (pos m) = if ltb m client_fd then pos client_fd else pos m
larger_fd client_fd (negsuc m) = pos client_fd

-- `FD_SET` on a descriptor that an `fd_set` has no room for is undefined.
unfoldable pub welcome : Host → Io (ℕ × Socket) → Defined (ℤ × Server × Env) → Turn
welcome host arrival (undefined_by f) = faulty f
welcome host arrival (returns (negsuc n, server, env)) =
    goes (record host { server = server; env = env })
welcome host arrival (returns (pos client_fd, server, env)) =
    if ltb client_fd fd_setsize
    then goes (record {
      server = server;
      sockets = accepted_sockets arrival host.sockets;
      all_fds = pos client_fd ∷ host.all_fds;
      max_fd = larger_fd client_fd host.max_fd;
      env = print (with_int "[CLIENT %d] Connected.\n" (pos client_fd)) env;
    })
    else faulty fd_set

-- `BUFSIZE`
abbrev pub client_bufsize : ℕ
client_bufsize = 255

unfoldable pub accept_waiting : (listen_fds : List ℤ) → Io (ℕ × Socket) → Host → Turn
unfolding welcome
accept_waiting listen_fds arrival host =
    if fd_isset host.server.server_fd listen_fds
    then welcome host arrival
        (accept_new_client Ref.here client_bufsize (accepted_fd arrival) host.server host.env)
    else goes host

-- What a turn meets: SIGINT has come, `select` fails with `errno` = e + 1, or it returns with the
-- descriptors that are ready, and what the next `accept` comes to.
pub data Event : Type 0 where
  interrupted : Event
  select_fails : ℕ → Event
  selects : (ready : ℤ → Bool) → Io (ℕ × Socket) → Event

-- One turn of the loop. `errno` 4 is EINTR.
unfoldable pub turn : Event → Host → Turn
unfolding serve_clients accept_waiting ready_of
turn interrupted host = exits (print (plain "\n") host.env)
turn (select_fails e) host =
    let env = print (plain "\n") host.env in
    if e == 3 then goes (record host { env = env }) else exits env
turn (selects ready arrival) host =
    let listen_fds = ready_of ready host.all_fds in
    and_next
      (serve_clients host.server.max_connections 0 listen_fds
        (record host { env = print (plain "\n") host.env }))
      λ host'. accept_waiting listen_fds arrival host'

-- `PORT`, `MAX_CONNECTIONS` and `CONNECTION_QUEUE`
abbrev pub port : ℕ
port = 50001

abbrev pub max_slots : ℕ
max_slots = 20

abbrev pub connection_queue : ℕ
connection_queue = 5

-- `no_sockets` stands for descriptors that are not open.
abbrev pub no_sockets : ℤ → Socket
no_sockets fd = record { inbox = []; accepts = []; sent = [] }

unfoldable pub listening : (setup : ℤ) → Init Server × Env → Turn
listening setup (refused code, env) = exits env
listening setup (made server, env) =
    if is_neg setup
    then exits env
    else if leb fd_setsize (pos_part setup)
    then faulty fd_set
    else goes (record {
      server = record server { server_fd = setup };
      sockets = no_sockets;
      all_fds = setup ∷ [];
      max_fd = setup;
      env = env;
    })

-- What precedes the loop; `setup` is what `setup_server_socket` returns.
unfoldable pub start : (setup : ℤ) → Env → Turn
unfolding listening
start setup env = listening setup (
    init_server_struct Ref.here (pos port) (pos max_slots) (pos connection_queue)
      (record env { header_type = 0 }))
