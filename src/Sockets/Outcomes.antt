-- ===== src/Sockets/Outcomes.antt =====
-- What the functions that open a socket return, and what they leave open.
use Prim.Native.String.{String}
use chopserver.Base.{
  if◌then◌else◌, ◌==◌, ℕ, suc, ◌≡◌, ℤ, pos, negsuc, List, [], ◌∷◌, ◌++◌, arith, Option, none, some,
}
use chopserver.Structs.{Ref}
use chopserver.Machine.{Io, done, failed}
use chopserver.Sockets.{
  Attempt, port_bytes, zeros, pf_inet, SockAddr, Kernel, SysCall, opens, reuses, closes, binds,
  connects, listens, setup_server_socket, connect_to_server, init_server_addr, or_errno,
}

-- Whether a call has failed, and with which code.
abbrev pub failure : {A : Type 0} → Io A → Option ℕ
failure (done a) = none
failure (failed e) = some e

-- The first of the codes with which calls have failed.
abbrev pub first_failure : List (Option ℕ) → Option ℕ
first_failure [] = none
first_failure (none ∷ rest) = first_failure rest
first_failure (some e ∷ rest) = some e

-- The descriptor, or the first failure as a negative code.
abbrev pub descriptor_or : Io ℕ → Option ℕ → ℤ
descriptor_or (failed e) later = negsuc e
descriptor_or (done soc) none = pos soc
descriptor_or (done soc) (some e) = negsuc e

abbrev pub without : ℕ → List ℕ → List ℕ
without soc [] = []
without soc (x ∷ fds) = if x == soc then without soc fds else x ∷ without soc fds

-- The descriptors that are open after the calls, where `fds` were before them.
abbrev pub open_after : (fds : List ℕ) → List SysCall → List ℕ
open_after fds [] = fds
open_after fds (opens soc ∷ calls) = open_after (soc ∷ fds) calls
open_after fds (closes soc ∷ calls) = open_after (without soc fds) calls
open_after fds (reuses soc ∷ calls) = open_after fds calls
open_after fds (binds soc addr ∷ calls) = open_after fds calls
open_after fds (connects soc addr ∷ calls) = open_after fds calls
open_after fds (listens soc n ∷ calls) = open_after fds calls

-- The descriptors that were opened and not closed.
abbrev pub left_open : List SysCall → List ℕ
left_open calls = open_after [] calls

abbrev pub opened : Io ℕ → List ℕ
opened (done soc) = soc ∷ []
opened (failed e) = []

-- The port on which, and the queue with which, connections are waited for.
abbrev pub waits_for : List SysCall → List (ℕ × ℤ)
waits_for [] = []
waits_for (listens soc n ∷ calls) = (soc, n) ∷ waits_for calls
waits_for (opens soc ∷ calls) = waits_for calls
waits_for (reuses soc ∷ calls) = waits_for calls
waits_for (closes soc ∷ calls) = waits_for calls
waits_for (binds soc addr ∷ calls) = waits_for calls
waits_for (connects soc addr ∷ calls) = waits_for calls

abbrev pub waiting_at : ℤ → ℤ → List (ℕ × ℤ)
waiting_at (pos soc) n = (soc, n) ∷ []
waiting_at (negsuc e) n = []

-- What an attempt to wait for connections comes to.
pub record IsSetUp (k : Kernel) (port num_queue : ℤ) (attempt : Attempt) : Type 0 where
  pub result :
      attempt.0
      ≡ descriptor_or k.socket_call (
          first_failure
            (failure k.setsockopt_call ∷ failure k.bind_call ∷ failure k.listen_call ∷ []))
  pub waits : waits_for attempt.2 ≡ waiting_at attempt.0 num_queue
  pub stays_open : left_open attempt.2 ≡ opened k.socket_call
  pub at_port : attempt.1.sin_port ≡ port_bytes port
  pub everywhere : attempt.1.sin_addr ≡ 0 ∷ 0 ∷ 0 ∷ 0 ∷ []

setup-IsSetUp :
    (old : SockAddr) (port num_queue : ℕ) (s : Io ℕ) (o b l : Io (Unit {0}))
    (g : String → Io (List ℕ)) (c : Io (Unit {0}))
    → let k : Kernel = record {
      socket_call = s;
      setsockopt_call = o;
      bind_call = b;
      listen_call = l;
      gethostbyname_call = g;
      connect_call = c;
    } in
      IsSetUp k
        (pos port)
        (pos (suc num_queue))
        (setup_server_socket Ref.here old (pos port) (pos (suc num_queue)) k)
unfolding setup_server_socket init_server_addr or_errno
setup-IsSetUp old port n (failed e) o b l g c = ground arith
setup-IsSetUp old port n (done soc) (failed e) b l g c = ground arith
setup-IsSetUp old port n (done soc) (done t) (failed e) l g c = ground arith
setup-IsSetUp old port n (done soc) (done t) (done u) (failed e) g c = ground arith
setup-IsSetUp old port n (done soc) (done t) (done u) (done v) g c = ground arith

-- `setup_server_socket` on a port and a queue that it does not refuse returns the descriptor of the
-- socket where every call succeeds, and otherwise the negative `errno` of the first call that fails;
-- it waits for connections, with the queue that was asked for, exactly where it returns the
-- descriptor; the address is the port on every interface; and the socket, once it is opened, stays
-- open on every path, also where the caller is told of a failure.
pub setup_server_socket-IsSetUp :
    (old : SockAddr) (port num_queue : ℕ) (k : Kernel)
    → IsSetUp k
        (pos port)
        (pos (suc num_queue))
        (setup_server_socket Ref.here old (pos port) (pos (suc num_queue)) k)
setup_server_socket-IsSetUp old port num_queue k =
    setup-IsSetUp old port num_queue k.socket_call k.setsockopt_call k.bind_call k.listen_call
      k.gethostbyname_call k.connect_call

-- The address that a descriptor was connected to.
abbrev pub reaches : List SysCall → List (ℕ × List ℕ)
reaches [] = []
reaches (connects soc addr ∷ calls) = (soc, addr.sin_addr ++ addr.sin_port) ∷ reaches calls
reaches (opens soc ∷ calls) = reaches calls
reaches (reuses soc ∷ calls) = reaches calls
reaches (closes soc ∷ calls) = reaches calls
reaches (binds soc addr ∷ calls) = reaches calls
reaches (listens soc n ∷ calls) = reaches calls

abbrev pub reaching : ℤ → Io (List ℕ) → ℤ → List (ℕ × List ℕ)
reaching (pos soc) (done host) port = (soc, host ++ port_bytes port) ∷ []
reaching (pos soc) (failed e) port = []
reaching (negsuc n) host port = []

-- What an attempt to reach a server comes to, by the outcomes of the three calls.
pub record IsConnected (socket : Io ℕ) (host : Io (List ℕ)) (connect : Io (Unit {0})) (port : ℤ)
    (attempt : Attempt) : Type 0 where
  pub result :
      attempt.0 ≡ descriptor_or socket (first_failure (failure host ∷ failure connect ∷ []))
  pub reached : reaches attempt.2 ≡ reaching attempt.0 host port
  pub stays_open : left_open attempt.2 ≡ opened socket

-- The calls in order, as `connect_to_server` makes them.
abbrev connecting : SockAddr → (port : ℤ) → Io ℕ → Io (List ℕ) → Io (Unit {0}) → Attempt
connecting old port socket host connect = or_errno socket old [] λ soc.
    let filled = record old {
      sin_family = pf_inet;
      sin_port = port_bytes port;
      sin_zero = zeros;
    } in
    or_errno host filled (opens soc ∷ []) λ found.
      let addr = record filled { sin_addr = found } in
      or_errno connect addr (opens soc ∷ [])
        λ _. (pos soc, addr, opens soc ∷ connects soc addr ∷ [])

connecting-IsConnected :
    (old : SockAddr) (port : ℕ) (s : Io ℕ) (h : Io (List ℕ)) (c : Io (Unit {0}))
    → IsConnected s h c (pos port) (connecting old (pos port) s h c)
unfolding or_errno
connecting-IsConnected old port (failed e) h c = ground arith
connecting-IsConnected old port (done soc) (failed e) c = ground arith
connecting-IsConnected old port (done soc) (done host) (failed e) = ground arith
connecting-IsConnected old port (done soc) (done host) (done t) = ground arith

-- `connect_to_server` with a host name and a port that it does not refuse returns the descriptor
-- of the socket where every call succeeds, and otherwise the negative code of the first one that
-- fails (`h_errno` where the host is unknown, else `errno`); the descriptor that it returns is
-- connected to the address of the host at the port; and the socket, once it is opened, stays open
-- on every path, also where the caller is told of a failure.
pub connect_to_server-IsConnected :
    (old : SockAddr) (hostname : String) (port : ℕ) (k : Kernel)
    → IsConnected k.socket_call
        (k.gethostbyname_call hostname)
        k.connect_call
        (pos port)
        (connect_to_server Ref.here old (some hostname) (pos port) k)
unfolding connect_to_server
connect_to_server-IsConnected old hostname port k =
    connecting-IsConnected old port k.socket_call (k.gethostbyname_call hostname) k.connect_call
