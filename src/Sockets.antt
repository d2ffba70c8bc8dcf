-- ===== src/Sockets.antt =====
-- src/chopsocket.c: `init_server_addr`, `setup_server_socket` and `connect_to_server`. What the
-- system calls come to is an argument; `accept_connection` and `refuse_connection` are in
-- Manage.Clients.
pub mod Outcomes
use Prim.Native.String.{String}
use chopserver.Base.{
  ℕ, ◌/◌, ◌%◌, ℤ, pos, negsuc, pos_part, neg, is_neg, lt_one, List, [], ◌∷◌, ◌++◌, ◌||◌, Option,
  none, some, if◌then◌else◌,
}
use chopserver.Structs.{Ref, is_null, einval}
use chopserver.Machine.{Io, done, failed}

-- `struct sockaddr_in`: the port and the address are the bytes that they have in memory.
pub record SockAddr : Type 0 where
  pub sin_family : ℕ
  pub sin_port : List ℕ
  pub sin_addr : List ℕ
  pub sin_zero : List ℕ

-- `PF_INET`
abbrev pub pf_inet : ℕ
pf_inet = 2

-- What each system call comes to. A failure of `gethostbyname` has `h_errno` = e + 1, and its
-- result is the first address of the host.
pub record Kernel : Type 0 where
  pub socket_call : Io ℕ
  pub setsockopt_call : Io (Unit {0})
  pub bind_call : Io (Unit {0})
  pub listen_call : Io (Unit {0})
  pub gethostbyname_call : String → Io (List ℕ)
  pub connect_call : Io (Unit {0})

-- A system call that has succeeded, with its descriptor. `closes` is `close`, which no function here
-- calls.
pub data SysCall : Type 0 where
  opens : ℕ → SysCall
  reuses closes : ℕ → SysCall
  binds connects : ℕ → SockAddr → SysCall
  listens : ℕ → (num_queue : ℤ) → SysCall

-- `htons(port)` in memory: the higher of the two bytes of an `unsigned short` comes first.
abbrev pub port_bytes : ℤ → List ℕ
port_bytes port = pos_part port / 256 % 256 ∷ pos_part port % 256 ∷ []

abbrev pub zeros : List ℕ
zeros = 0 ∷ 0 ∷ 0 ∷ 0 ∷ 0 ∷ 0 ∷ 0 ∷ 0 ∷ []

-- `INADDR_ANY` is the address 0.0.0.0.
unfoldable pub init_server_addr : Ref → SockAddr → (port : ℤ) → ℤ × SockAddr
init_server_addr addr old port = if is_null addr || is_neg port then (neg einval, old) else (
  pos 0,
  record {
    sin_family = pf_inet;
    sin_port = port_bytes port;
    sin_addr = 0 ∷ 0 ∷ 0 ∷ 0 ∷ [];
    sin_zero = zeros;
  },
)

-- The result, the address, and the calls that have succeeded, in order.
abbrev pub Attempt : Type 0
Attempt = ℤ × SockAddr × List SysCall

-- `if (call < 0) return -errno`, and what follows.
unfoldable pub or_errno : {A : Type 0} → Io A → SockAddr → List SysCall → (A → Attempt) → Attempt
or_errno (failed e) addr made next = (negsuc e, addr, made)
or_errno (done a) addr made next = next a

unfoldable pub setup_server_socket :
    (self : Ref) → SockAddr → (port num_queue : ℤ) → Kernel → Attempt
unfolding init_server_addr or_errno
setup_server_socket self old port num_queue k =
    if is_null self || (lt_one num_queue || is_neg port)
    then (neg einval, old, [])
    else let (init_serv, addr) = init_server_addr self old port in
      if is_neg init_serv
      then (init_serv, addr, [])
      else (or_errno k.socket_call addr [] λ soc.
          let made = opens soc ∷ [] in
          or_errno k.setsockopt_call addr made λ _.
            let made' = made ++ reuses soc ∷ [] in
            or_errno k.bind_call addr made' λ _.
              let made'' = made' ++ binds soc addr ∷ [] in
              or_errno k.listen_call addr made''
                λ _. (pos soc, addr, made'' ++ listens soc num_queue ∷ []))

-- `addr->sin_addr` is set after the host was found.
unfoldable pub connect_to_server :
    (addr : Ref) → SockAddr → (hostname : Option String) → (port : ℤ) → Kernel → Attempt
unfolding or_errno
connect_to_server addr old none port k = (neg einval, old, [])
connect_to_server addr old (some hostname) port k =
    if is_null addr || is_neg port
    then (neg einval, old, [])
    else (or_errno k.socket_call old [] λ soc.
        let made = opens soc ∷ [] in
        let filled = record old {
          sin_family = pf_inet;
          sin_port = port_bytes port;
          sin_zero = zeros;
        } in
        or_errno (k.gethostbyname_call hostname) filled made λ host.
          let addr = record filled { sin_addr = host } in
          or_errno k.connect_call addr made λ _. (pos soc, addr, made ++ connects soc addr ∷ []))
