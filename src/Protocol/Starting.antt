-- ===== src/Protocol/Starting.antt =====
-- The client from its start on.

use chopserver.Base.{ℕ, ◌<◌, ltb, true, ◌+◌, ◌≡◌, refl, ℤ, pos, List, [], ◌∷◌, some, arith}
use chopserver.Structs.{Ref}
use chopserver.Env.{Env, malloc-ok}
use chopserver.Memory.{init_client_struct}
use chopserver.Machine.{Arrival, Socket, Conn, fd_setsize}
use chopserver.Machine.Leads.{Returns}
use chopserver.Sockets.{SockAddr, Kernel, connect_to_server}
use chopserver.Manage.Establish.{establish_server_connection, connect_client}
use chopserver.Console.{client_loop, client_start, ready, address, port, bufsize, session}
use chopserver.Protocol.{Message, AllProper, awake, converse}
use chopserver.Protocol.Ends.{IsFluent, Went}
use chopserver.Protocol.Talking.{turns, next_of}
use chopserver.Protocol.Looping.{client_loop-Comes, Comes}

-- The environment after the client was allocated.
abbrev allocated : Env → Env
allocated env = record env { header_type = 1; allocated = env.allocated + 1 }

-- The connection with which the loop begins.
abbrev pub begun : ℕ → Socket → Env → Conn
begun fd sock env =
    session
      (record {
        socket_fd = pos fd;
        server_fd = ℤ.negsuc 0;
        inc_flag = 0;
        out_flag = 0;
        window = bufsize;
      })
      sock (allocated env)

client_start-begun :
    (k : Kernel) (old : SockAddr) (fd : ℕ) (sock : Socket) (env : Env)
    → env.mallocs ≡ []
    → (connect_to_server Ref.here old (some address) (pos port) k).0 ≡ pos fd
    → fd < fd_setsize
    → client_start k old sock env ≡ ready (begun fd sock env) (pos fd ∷ pos 0 ∷ []) (pos fd)
unfolding client_start establish_server_connection connect_client init_client_struct
client_start-begun k old fd sock env m e small =
    let room : ltb fd fd_setsize ≡ true = ground arith in
    rw (e, malloc-ok (record env { header_type = 1 }) m) (rw room refl)

begun-IsFluent :
    (fd : ℕ) (sock : Socket) (env : Env)
    → env.mallocs ≡ []
    → sock.accepts ≡ []
    → IsFluent "[SERVER %d]" env.clock (begun fd sock env)
begun-IsFluent fd sock env m a = record {
  quiet = record { memory = m; writes = a };
  tagged = refl;
  window = omega arith;
  ticks = refl;
}

-- Where memory is to be had, the server is reached on a descriptor that an `fd_set` has room for, and
-- every write is taken whole, the client enters its loop awake, waiting for its descriptor and its
-- standard input, and then, in turns in which only the server has something to say, goes through any
-- sequence of messages as the protocol does from an end that is awake. The messages come in one
-- arrival or in several, in any grouping, but each of them whole in one arrival: one that came in
-- parts would be refused. The client's process ends exactly where the protocol says that this end has
-- left, what it has sent are the answers of the protocol, in order, and what is left to come are the
-- messages that the protocol has not taken, and what follows them.
pub client_start-converse :
    (k : Kernel) (old : SockAddr) (fd : ℕ) (sock : Socket) (env : Env) (ms : List Message)
    (more : List ℕ) (rest : List Arrival)
    → env.mallocs ≡ []
    → sock.accepts ≡ []
    → (connect_to_server Ref.here old (some address) (pos port) k).0 ≡ pos fd
    → fd < fd_setsize
    → AllProper ms
    → Comes more rest ms sock.inbox
    → (client_start k old sock env ≡ ready (begun fd sock env) (pos fd ∷ pos 0 ∷ []) (pos fd))
      × Returns
          (λ n c'.
            (n ≡ next_of (converse env.clock awake ms).stance)
            × Comes more rest (converse env.clock awake ms).untaken c'.sock.inbox
            × Went "[SERVER %d]" env.clock
                (converse env.clock awake ms).stance
                (converse env.clock awake ms).answers
                c'.sock.inbox
                (begun fd sock env)
                c')
          (client_loop (turns ms) (begun fd sock env))
client_start-converse k old fd sock env ms more rest m a e room proper inbox = (
  client_start-begun k old fd sock env m e room,
  client_loop-Comes "[SERVER %d]" env.clock awake ms more rest (begun fd sock env)
      (begun-IsFluent fd sock env m a) refl proper inbox,
)
