-- ===== src/Manage/Clients/Accepting.antt =====
-- What `accept_new_client` and `remove_client_index` do to the slots.
use chopserver.Base.{
  ℕ, zero, suc, ◌+◌, ◌^◌, ltb, pos_part, ◌≤◌, ◌<◌, ◌≡◌, refl, ap, sym, ◌∙◌, inl, inr, ℤ, pos,
  negsuc, neg, List, [], ◌∷◌, ◌++◌, Option, none, some, arith, length, get_elem?, set, length-set,
  set-set, get_elem?-set_self, lt-length_of_get_elem?, true, false, Bool-cases, ◌==◌,
}
use chopserver.Structs.{Ref, Client, Server, enospc, enomem, einval}
use chopserver.Env.{Env, close, free}
use chopserver.Memory.{Init, init_client_struct, destroy_client_struct}
use chopserver.Machine.{Io, overflow}
use chopserver.Manage.Clients.{
  Defined, returns, undefined_by, to_int, seat, place_client, accept_client, accept_connection,
  accept_new_client, remove_slot, remove_client_index,
}
use chopserver.Manage.Clients.Slots.{
  occupied, occupied-set, AllClients, AllClients-set, IsTaken, Found, found, full, find_slot-Found,
}
use chopserver.Manage.Clients.Seating.{
  is_made, refused_fd, Seated, seat-Seated, IsInit, fresh, none_made, init_client_struct-IsInit,
  refuse_connection-closed,
}

-- The outcome of a call of `accept_new_client`, with the condition of each: `bufsize` is 0, or no
-- client can be allocated and the connection is refused, or `accept` fails, or the server is full
-- and the descriptor is closed again, or the count of connections overflows, or the client is in
-- the first empty slot.
pub data Accepted (s : Server) (bufsize : ℕ) (arrival : Io ℕ) (e : Env)
    : Defined (ℤ × Server × Env) → Type 0 where
  invalid : bufsize ≡ 0 → Accepted s bufsize arrival e (returns (neg einval, s, e))
  lacks :
      (e' : Env)
      → is_made (init_client_struct Ref.here (to_int bufsize) e).0 ≡ false
      → e'.closed ≡ e.closed ++ refused_fd s.server_fd arrival
      → Accepted s bufsize arrival e (returns (neg enomem, s, e'))
  fails :
      (n : ℕ) (e' : Env)
      → is_made (init_client_struct Ref.here (to_int bufsize) e).0 ≡ true
      → accept_connection s.server_fd arrival ≡ negsuc n
      → e'.closed ≡ e.closed
      → Accepted s bufsize arrival e (returns (negsuc n, s, e'))
  crowded :
      (fd : ℕ) (e' : Env)
      → is_made (init_client_struct Ref.here (to_int bufsize) e).0 ≡ true
      → accept_connection s.server_fd arrival ≡ pos fd
      → ((j : ℕ) → j < s.max_connections → IsTaken s.clients j)
      → e'.closed ≡ e.closed ++ pos fd ∷ []
      → Accepted s bufsize arrival e (returns (neg enospc, s, e'))
  overflows : 2 ^ 31 ≤ s.cur_connections + 1 → Accepted s bufsize arrival e (undefined_by overflow)
  seats :
      (fd i : ℕ) (newcli : Client) (e' : Env)
      → is_made (init_client_struct Ref.here (to_int bufsize) e).0 ≡ true
      → accept_connection s.server_fd arrival ≡ pos fd
      → i < s.max_connections
      → get_elem? s.clients i ≡ some none
      → ((j : ℕ) → j < i → IsTaken s.clients j)
      → s.cur_connections + 1 < 2 ^ 31
      → Seated i fd (pos_part (to_int bufsize)) s (seat newcli i fd (pos_part (to_int bufsize)) s)
      → e'.closed ≡ e.closed
      → Accepted s bufsize arrival e
          (returns (pos fd, seat newcli i fd (pos_part (to_int bufsize)) s, e'))

module _ (bufsize : ℕ) (arrival : Io ℕ) (s : Server) (e : Env)
    (slots : length s.clients ≡ s.max_connections) where
  place_client-Accepted :
      (newcli : Client) (fd : ℕ) (e' : Env) {r : Option ℤ}
      → is_made (init_client_struct Ref.here (to_int bufsize) e).0 ≡ true
      → accept_connection s.server_fd arrival ≡ pos fd
      → newcli.socket_fd ≡ negsuc 0
      → e'.closed ≡ e.closed
      → Found s.clients s.max_connections r
      → Accepted s bufsize arrival e (place_client r newcli fd (pos_part (to_int bufsize)) s e')
  unfolding place_client destroy_client_struct close free
  place_client-Accepted newcli fd e' made_one accepted fresh_one same
        (found i inside empty before) =
      elim (Bool-cases (ltb (s.cur_connections + 1) (2 ^ 31))) [
        | inl counts ↦ rw counts (
            seats fd i newcli e' made_one accepted inside empty before (ground arith)
              (seat-Seated newcli i fd (pos_part (to_int bufsize)) s empty) same)
        | inr over ↦ rw over (overflows (ground arith))
      ]
  place_client-Accepted newcli fd e' made_one accepted fresh_one same (full all) =
      rw fresh_one (crowded fd _ made_one accepted all (ap (λ l. l ++ pos fd ∷ []) same))

  accept_client-Accepted :
      (accepted : ℤ) {new : Init Client × Env}
      → init_client_struct Ref.here (to_int bufsize) e ≡ new
      → accept_connection s.server_fd arrival ≡ accepted
      → IsInit e new
      → Accepted s bufsize arrival e
          (accept_client accepted new.0 arrival (pos_part (to_int bufsize)) s new.1)
  unfolding accept_client
  accept_client-Accepted accepted inited taken (none_made {e'} same) = lacks _ (rw inited refl) (
      refuse_connection-closed s.server_fd arrival e'
      ∙ ap (λ l. l ++ refused_fd s.server_fd arrival) same)
  accept_client-Accepted (negsuc n) inited taken (fresh {e'} no_fd same) =
      fails n e' (rw inited refl) taken same
  accept_client-Accepted (pos fd) inited taken (fresh {newcli} {e'} no_fd same) =
      place_client-Accepted newcli fd e' (rw inited refl) taken no_fd same (
        find_slot-Found s.clients s.max_connections 0 s.max_connections (omega arith)
          (omega (arith, slots)) λ j less. absurd (omega arith))

pub accept_new_client-Accepted :
    (bufsize : ℕ) (arrival : Io ℕ) (s : Server) (e : Env)
    → length s.clients ≡ s.max_connections
    → Accepted s bufsize arrival e (accept_new_client Ref.here bufsize arrival s e)
unfolding accept_new_client
accept_new_client-Accepted zero arrival s e slots = invalid refl
accept_new_client-Accepted (suc k) arrival s e slots =
    let some_size : (suc k == 0) ≡ false = ground arith in
    rw some_size (
      accept_client-Accepted (suc k) arrival s e slots (accept_connection s.server_fd arrival) refl
        refl (init_client_struct-IsInit (to_int (suc k)) e))

-- A client that satisfies `P` is kept in every slot that holds one, the slots are as many as
-- `max_connections`, and those that hold a client at most `cur_connections`.
pub record IsSound (P : Client → Type 0) (s : Server) : Type 0 where
  pub slots : length s.clients ≡ s.max_connections
  pub counted : occupied s.clients ≤ s.cur_connections
  pub each : AllClients P s.clients

module _ (P : Client → Type 0) where
  -- A connection is counted in where it is seated.
  pub seat-IsSound :
      (newcli : Client) (i fd bufsize : ℕ) (s : Server)
      → IsSound P s
      → get_elem? s.clients i ≡ some none
      → P (record {
        socket_fd = pos fd;
        server_fd = s.server_fd;
        inc_flag = 0;
        out_flag = 0;
        window = bufsize;
      })
      → IsSound P (seat newcli i fd bufsize s)
  seat-IsSound newcli i fd bufsize s sound empty p = record {
    slots = length-set s.clients i _ ∙ sound.slots;
    counted = omega (arith, occupied-set s.clients i none (some _) empty, sound.counted);
    each = AllClients-set P s.clients i _ p sound.each;
  }

set-get_elem? {ℓ} :
    {A : Type ℓ} (xs : List A) (i : ℕ) {v : A} → get_elem? xs i ≡ some v → set xs i v ≡ xs
set-get_elem? [] i e = refl
set-get_elem? (x ∷ xs) zero {v} e = let same : x ≡ v = cc e in ap (λ y. y ∷ xs) (sym same)
set-get_elem? (x ∷ xs) (suc i) e = ap (λ l. x ∷ l) (set-get_elem? xs i e)

-- A slot that holds a client is emptied.
pub remove_client_index-taken :
    (i : ℕ) (c : Client) (s : Server) (e : Env)
    → get_elem? s.clients i ≡ some (some c)
    → remove_client_index (pos i) Ref.here s e
      ≡ some (
        pos 0,
        record s { clients = set s.clients i none },
        (destroy_client_struct Ref.here (some c) e).2,
      )
unfolding remove_client_index remove_slot destroy_client_struct
remove_client_index-taken i c s e at = rw (at, remove_slot)

-- `remove_client_index` at the slot of a client that was just seated there, with a descriptor
-- above 0, returns 0, closes the descriptor and releases the client, and leaves the server as it
-- was before, except that the count of connections stays one higher.
pub remove_client_index-seat :
    (i fd bufsize : ℕ) (newcli : Client) (s : Server) (e : Env)
    → get_elem? s.clients i ≡ some none
    → 0 < fd
    → remove_client_index (pos i) Ref.here (seat newcli i fd bufsize s) e
      ≡ some (
        pos 0,
        record s { cur_connections = s.cur_connections + 1 },
        record e { closed = e.closed ++ pos fd ∷ []; freed = e.freed + 1 },
      )
unfolding destroy_client_struct close free
remove_client_index-seat i zero bufsize newcli s e empty open_fd = absurd (omega arith)
remove_client_index-seat i (suc k) bufsize newcli s e empty open_fd =
    let here = get_elem?-set_self s.clients i _ (lt-length_of_get_elem? s.clients i empty) in
    rw (
      remove_client_index-taken i _ (seat newcli i (suc k) bufsize s) e here,
      set-set s.clients i _ none,
      set-get_elem? s.clients i empty,
    )
