-- ===== src/Memory/Destroying.antt =====
-- What the destruction of a server gives back.
use mathlib.Core.List.{append-nil, append_assoc}
use chopserver.Base.{
  ℕ, ◌+◌, ◌≡◌, refl, ap, sym, ◌∙◌, inl, inr, ℤ, pos, List, [], ◌∷◌, ◌++◌, Option, some, none,
  Bool-cases, if◌then◌else◌, arith,
}
use chopserver.Structs.{Ref, Client, Server}
use chopserver.Env.{Env, close, free}
use chopserver.Memory.{is_open, destroy_client_struct, destroy_clients, destroy_server_struct}
use chopserver.Manage.Clients.Slots.{occupied}

-- A descriptor that `close` is called on.
abbrev pub open_fd : ℤ → List ℤ
open_fd fd = if is_open fd then fd ∷ [] else []

abbrev pub open_fds : List (Option Client) → List ℤ
open_fds [] = []
open_fds (none ∷ slots) = open_fds slots
open_fds (some c ∷ slots) = open_fd c.socket_fd ++ open_fds slots

close_open :
    (fd : ℤ) (e : Env)
    → (if is_open fd then close fd e else e) ≡ record e { closed = e.closed ++ open_fd fd }
unfolding close
close_open fd e = elim (Bool-cases (is_open fd)) [
  | inl opened ↦ rw opened refl
  | inr other ↦ rw other (ap (λ l. record e { closed = l }) (sym (append-nil e.closed)))
]

abbrev gives_back : Env → List ℤ → ℕ → Env
gives_back e closed freed = record e { closed = closed; freed = freed }

same_back : (e : Env) {k l : List ℤ} {m n : ℕ} → k ≡ l → m ≡ n → gives_back e k m ≡ gives_back e l n
same_back e {k} {l} {m} {n} p q = ap (λ x. gives_back e x m) p ∙ ap (λ x. gives_back e l x) q

destroy_clients-ok :
    (slots : List (Option Client)) (e : Env)
    → destroy_clients slots e ≡ gives_back e (e.closed ++ open_fds slots) (e.freed + occupied slots)
unfolding destroy_clients destroy_client_struct free
destroy_clients-ok [] e = same_back e (sym (append-nil e.closed)) (omega arith)
destroy_clients-ok (none ∷ slots) e = destroy_clients-ok slots e ∙ same_back e refl (omega arith)
destroy_clients-ok (some c ∷ slots) e = rw (close_open c.socket_fd e) (
    destroy_clients-ok slots (free (record e { closed = e.closed ++ open_fd c.socket_fd }))
    ∙ same_back e (append_assoc e.closed (open_fd c.socket_fd) (open_fds slots)) (omega arith))

-- `destroy_server_struct` on a server returns 0 and clears the pointer; it closes the server's
-- descriptor and then those of the clients in their slots, as far as they are above 0, and
-- releases a block for every client and two for the server.
pub destroy_server_struct-ok :
    (s : Server) (e : Env)
    → destroy_server_struct Ref.here (some s) e ≡ (
      pos 0,
      none,
      record e {
        closed = e.closed ++ (open_fd s.server_fd ++ open_fds s.clients);
        freed = e.freed + occupied s.clients + 2;
      },
    )
unfolding destroy_server_struct free
destroy_server_struct-ok s e = rw (close_open s.server_fd e) (
    rw (destroy_clients-ok s.clients (record e { closed = e.closed ++ open_fd s.server_fd })) (
      ap (λ x. (pos 0, none, x))
        (same_back e (append_assoc e.closed (open_fd s.server_fd) (open_fds s.clients))
          (omega arith))))
