-- ===== src/Manage/Clients/Seating.antt =====
-- A client that is given a slot, and one that is not.
use chopserver.Base.{
  ℕ, ◌+◌, lt_one, get_elem?-set_other, ◌≡◌, refl, sym, inl, inr, ℤ, pos, negsuc, List, [], ◌∷◌,
  ◌++◌, none, some, length, get_elem?, length-set, get_elem?-set_self, lt-length_of_get_elem?, Bool,
  true, false, Bool-cases, ◌==◌,
}
use mathlib.Core.List.{append-nil}
use chopserver.Structs.{Ref, Client, Server}
use chopserver.Env.{Env, malloc, malloc_by, close}
use chopserver.Memory.{Init, made, refused, init_client_struct}
use chopserver.Machine.{Io, done, failed}
use chopserver.Manage.Clients.{seat, refuse_connection}

-- Whether a client could be allocated.
abbrev pub is_made : Init Client → Bool
is_made (made c) = true
is_made (refused code) = false

-- The descriptor of a connection that is accepted only to be closed.
abbrev pub refused_fd : (listenfd : ℤ) → Io ℕ → List ℤ
refused_fd (pos n) (done fd) = pos fd ∷ []
refused_fd (pos n) (failed e) = []
refused_fd (negsuc n) arrival = []

-- What a server has that was given a client in slot `i`: the slot holds the client, no other slot
-- has changed, and one connection more is counted.
pub record Seated (i fd : ℕ) (window : ℕ) (s s' : Server) : Type 0 where
  pub holds :
      (c : Client) × (get_elem? s'.clients i ≡ some (some c))
      × (c.socket_fd ≡ pos fd)
      × (c.server_fd ≡ s.server_fd)
      × (c.inc_flag ≡ 0)
      × (c.out_flag ≡ 0)
      × (c.window ≡ window)
  pub others : (j : ℕ) → (j == i) ≡ false → get_elem? s'.clients j ≡ get_elem? s.clients j
  pub slots : length s'.clients ≡ length s.clients
  pub counts : s'.cur_connections ≡ s.cur_connections + 1

pub seat-Seated :
    (newcli : Client) (i fd window : ℕ) (s : Server)
    → get_elem? s.clients i ≡ some none
    → Seated i fd window s (seat newcli i fd window s)
seat-Seated newcli i fd window s empty = record {
  holds = (
    _,
    get_elem?-set_self s.clients i _ (lt-length_of_get_elem? s.clients i empty),
    refl,
    refl,
    refl,
    refl,
    refl,
  );
  others = λ j other. get_elem?-set_other s.clients i j _ other;
  slots = length-set s.clients i _;
  counts = refl;
}

malloc-closed : (e : Env) → (malloc e).1.closed ≡ e.closed
unfolding malloc
malloc-closed e = malloc_by-closed e.mallocs e
  where
    malloc_by-closed : (l : List Bool) (e : Env) → (malloc_by l e).1.closed ≡ e.closed
    malloc_by-closed [] e = unfold malloc_by in refl
    malloc_by-closed (true ∷ l) e = unfold malloc_by in refl
    malloc_by-closed (false ∷ l) e = unfold malloc_by in refl

-- A new client has no descriptor; without one there is no client.
pub data IsInit (e : Env) : Init Client × Env → Type 0 where
  fresh :
      {newcli : Client} {e' : Env}
      → newcli.socket_fd ≡ negsuc 0
      → e'.closed ≡ e.closed
      → IsInit e (made newcli, e')
  none_made : {code : ℤ} {e' : Env} → e'.closed ≡ e.closed → IsInit e (refused code, e')

pub init_client_struct-IsInit : (size : ℤ) (e : Env) → IsInit e (init_client_struct Ref.here size e)
unfolding init_client_struct
init_client_struct-IsInit size e = elim (Bool-cases (lt_one size)) [
  | inl small ↦ rw small (none_made refl)
  | inr large ↦ elim (Bool-cases (malloc e).0) [
    | inl got ↦ rw (large, got) (fresh refl (malloc-closed e))
    | inr out ↦ rw (large, out) (none_made (malloc-closed e))
  ]
]

pub refuse_connection-closed :
    (listenfd : ℤ) (arrival : Io ℕ) (e : Env)
    → (refuse_connection listenfd arrival e).1.closed ≡ e.closed ++ refused_fd listenfd arrival
unfolding refuse_connection close
refuse_connection-closed (pos n) (done fd) e = refl
refuse_connection-closed (pos n) (failed k) e = sym (append-nil e.closed)
refuse_connection-closed (negsuc n) (done fd) e = sym (append-nil e.closed)
refuse_connection-closed (negsuc n) (failed k) e = sym (append-nil e.closed)
