-- ===== src/Manage/Clients.antt =====
-- src/chopconn.c: `accept_new_client`, `remove_client_index` and `remove_client_address`, with
-- `accept_connection` and `refuse_connection` of src/chopsocket.c.
pub mod Slots
pub mod Seating
pub mod Accepting
use chopserver.Base.{
  ℕ, zero, suc, ◌+◌, ◌-◌, ◌%◌, ◌^◌, ltb, ℤ, pos, negsuc, pos_part, neg, is_neg, List, [], ◌∷◌,
  Option, none, some, get_elem?, set, if◌then◌else◌, ◌==◌, ◌||◌,
}
use chopserver.Structs.{Ref, is_null, Client, Server, enoent, enomem, einval, enospc}
use chopserver.Env.{Env, close}
use chopserver.Memory.{Init, made, refused, init_client_struct, destroy_client_struct}
use chopserver.Machine.{Io, done, failed, Fault, slots, overflow}

-- The outcome of `accept` is an argument: a descriptor, or a failure.
unfoldable pub accept_connection : (listenfd : ℤ) → Io ℕ → ℤ
accept_connection listenfd (failed e) = if is_neg listenfd then neg einval else negsuc e
accept_connection listenfd (done fd) = if is_neg listenfd then neg einval else pos fd

-- A failed `accept` leaves nothing to close.
unfoldable pub refuse_connection : (listenfd : ℤ) → Io ℕ → Env → ℤ × Env
refuse_connection listenfd (failed e) env =
    if is_neg listenfd then (neg einval, env) else (pos 0, env)
refuse_connection listenfd (done fd) env =
    if is_neg listenfd then (neg einval, env) else (pos 0, close (pos fd) env)

-- A round of the search for an empty slot: `rest` is what the later rounds come to. There is no
-- result where the array is read outside.
unfoldable pub pick : Option (Option Client) → ℕ → (rest : Option ℤ) → Option ℤ
pick none i rest = none
pick (some none) i rest = some (pos i)
pick (some (some c)) i rest = rest

-- The first empty slot, or -1; `rounds` is `max_connections - i`.
unfoldable pub find_slot : List (Option Client) → (rounds i : ℕ) → Option ℤ
unfolding pick
find_slot clients zero i = some (neg 1)
find_slot clients (suc rounds) i =
    let rest = find_slot clients rounds (i + 1) in pick (get_elem? clients i) i rest

-- The result of a function, or undefined behaviour.
pub data Defined (A : Type 0) : Type 0 where
  returns : A → Defined A
  undefined_by : Fault → Defined A

-- A `size_t` that is converted to an `int`.
abbrev pub to_int : ℕ → ℤ
to_int n = if ltb (n % 2 ^ 32) (2 ^ 31) then pos (n % 2 ^ 32) else neg (2 ^ 32 - n % 2 ^ 32)

-- The client in a slot, and the count of connections.
abbrev pub seat : Client → (destination : ℕ) → (client_fd : ℕ) → (bufsize : ℕ) → Server → Server
seat newcli destination client_fd bufsize receiver = record receiver {
  clients = set receiver.clients destination (
      some (record newcli {
        socket_fd = pos client_fd;
        server_fd = receiver.server_fd;
        inc_flag = 0;
        out_flag = 0;
        window = bufsize;
      }));
  cur_connections = receiver.cur_connections + 1;
}

-- From the search for a slot on. `cur_connections` is an `int`, and its overflow is undefined.
unfoldable pub place_client :
    Option ℤ → Client → (client_fd bufsize : ℕ) → Server → Env → Defined (ℤ × Server × Env)
place_client none newcli client_fd bufsize receiver e = undefined_by slots
place_client (some (negsuc n)) newcli client_fd bufsize receiver e =
    let (r, old, e') = destroy_client_struct Ref.here (some newcli) (close (pos client_fd) e) in
    returns (neg enospc, receiver, e')
place_client (some (pos destination)) newcli client_fd bufsize receiver e =
    if ltb (receiver.cur_connections + 1) (2 ^ 31)
    then returns (pos client_fd, seat newcli destination client_fd bufsize receiver, e)
    else undefined_by overflow

unfoldable pub accept_client :
    ℤ → Init Client → Io ℕ → (bufsize : ℕ) → Server → Env → Defined (ℤ × Server × Env)
unfolding place_client find_slot refuse_connection
accept_client accepted (refused code) arrival bufsize receiver e =
    let (r, e') = refuse_connection receiver.server_fd arrival e in
    returns (neg enomem, receiver, e')
accept_client (negsuc n) (made newcli) arrival bufsize receiver e = returns (negsuc n, receiver, e)
accept_client (pos client_fd) (made newcli) arrival bufsize receiver e =
    place_client (find_slot receiver.clients receiver.max_connections 0) newcli client_fd bufsize
      receiver e

-- At most one connection is accepted in a call, and `arrival` is what becomes of it. `bufsize` is a
-- `size_t`, of which `init_client_struct` and `window` get an `int`.
unfoldable pub accept_new_client :
    Ref → (bufsize : ℕ) → Io ℕ → Server → Env → Defined (ℤ × Server × Env)
unfolding accept_client accept_connection
accept_new_client ptr bufsize arrival receiver e =
    if is_null ptr || (bufsize == 0)
    then returns (neg einval, receiver, e)
    else let (newcli, e') = init_client_struct Ref.here (to_int bufsize) e in
      accept_client (accept_connection receiver.server_fd arrival) newcli arrival
        (pos_part (to_int bufsize)) receiver e'

unfoldable pub remove_slot : Option (Option Client) → ℕ → Server → Env → Option (ℤ × Server × Env)
remove_slot none index host e = none
remove_slot (some none) index host e = some (neg enoent, host, e)
remove_slot (some (some old)) index host e =
    let (r, left, e') = destroy_client_struct Ref.here (some old) e in
    if is_neg r
    then some (neg einval, host, e')
    else some (pos 0, record host { clients = set host.clients index left }, e')

-- An index that is not one of the array's is not refused: there is no result then.
unfoldable pub remove_client_index :
    (client_index : ℤ) → Ref → Server → Env → Option (ℤ × Server × Env)
unfolding remove_slot
remove_client_index client_index ptr host e =
    if is_neg client_index || is_null ptr
    then some (neg einval, host, e)
    else remove_slot (get_elem? host.clients (pos_part client_index)) (pos_part client_index) host e

-- The pointer that `target` holds, and the one that it is left with. A `target` of NULL is
-- dereferenced, and has no result.
unfoldable pub remove_client_address :
    (client_index : ℤ) → Ref → Option Client → Env → Option (ℤ × Option Client × Env)
remove_client_address client_index target old e =
    if is_neg client_index
    then some (neg einval, old, e)
    else if is_null target
    then none
    else elim old [
      | none ↦ some (neg einval, none, e)
      | some client ↦
          let (r, left, e') = destroy_client_struct target (some client) e in
          if is_neg r then some (neg einval, left, e') else some (pos 0, left, e')
    ]
