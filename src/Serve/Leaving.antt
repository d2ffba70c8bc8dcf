-- ===== src/Serve/Leaving.antt =====
-- The server lets a peer go that has closed its end.
use chopserver.Base.{
  ℕ, ◌+◌, ◌≡◌, refl, inl, inr, ℤ, pos, negsuc, List, [], ◌∷◌, ◌++◌, none, some, get_elem?, set,
  set-set, get_elem?-set_self, lt-length_of_get_elem?, true, false, Bool-cases, ◌||◌, ap, ==_iff,
  arith,
}
use chopserver.Structs.{Client, Server}
use chopserver.Env.{with_int, print, close, free}
use chopserver.Memory.{is_open, destroy_client_struct}
use chopserver.Machine.{Arrival}
use chopserver.Manage.Request.{is_client_status}
use chopserver.Manage.Request.Ended.{HasEnded, hung_up, process_request-ended}
use chopserver.Manage.Clients.Accepting.{remove_client_index-taken}
use chopserver.Serve.{
  with_socket, Host, goes, connection, serve_slot, after_request, drop_client, removed, same_fd,
  fd_isset, fd_clr,
}

-- A descriptor that was taken out of a set is not in it.
pub fd_clr-isset : (fd : ℤ) (fds : List ℤ) → fd_isset fd (fd_clr fd fds) ≡ false
unfolding fd_clr fd_isset
fd_clr-isset fd [] = refl
fd_clr-isset fd (x ∷ fds) = elim (Bool-cases (same_fd fd x)) [
  | inl same ↦ rw same (fd_clr-isset fd fds)
  | inr other ↦ rw (other, fd_isset, other) (fd_clr-isset fd fds)
]

-- Descriptors that the test finds equal are equal, so no other one is taken out.
pub same_fd-eq : (a b : ℤ) → same_fd a b ≡ true → a ≡ b
same_fd-eq (pos m) (pos n) e = ap pos ((==_iff m n).0 e)
same_fd-eq (pos m) (negsuc n) e = absurd (ground arith)
same_fd-eq (negsuc m) (pos n) e = absurd (ground arith)
same_fd-eq (negsuc m) (negsuc n) e = ap negsuc ((==_iff m n).0 e)

pub fd_clr-other :
    (fd y : ℤ) (fds : List ℤ) → same_fd y fd ≡ false → fd_isset y (fd_clr fd fds) ≡ fd_isset y fds
unfolding fd_clr fd_isset
fd_clr-other fd y [] ne = refl
fd_clr-other fd y (x ∷ fds) ne = elim (Bool-cases (same_fd fd x)) [
  | inl same ↦
      let differs : same_fd y x ≡ false = rw (← same_fd-eq fd x same) ne in
      rw (same, differs) (fd_clr-other fd y fds ne)
  | inr other ↦ rw (other, fd_isset) (ap (λ b. same_fd y x || b) (fd_clr-other fd y fds ne))
]

-- The host without the client in slot `i`.
abbrev let_go : (i : ℕ) → Client → (later : List Arrival) → Host → Host
let_go i c later h = record h {
  server = record h.server { clients = set h.server.clients i none };
  sockets = with_socket c.socket_fd (record (h.sockets c.socket_fd) { inbox = later }) h.sockets;
  all_fds = fd_clr c.socket_fd h.all_fds;
  env = record h.env {
    allocated = h.env.allocated + 1;
    freed = h.env.freed + 1 + 1;
    closed = h.env.closed ++ c.socket_fd ∷ [];
    shown = h.env.shown ++ with_int "[CLIENT %d] Connection closed.\n" c.socket_fd ∷ [];
  };
}

-- The slot of the client is empty, and no other slot has changed; its descriptor is closed, and is
-- not waited for any more, while every other is as it was. The count of connections has not changed.
pub record LetGo (i : ℕ) (fd : ℤ) (h h' : Host) : Type 0 where
  pub slots : h'.server.clients ≡ set h.server.clients i none
  pub closed : h'.env.closed ≡ h.env.closed ++ fd ∷ []
  pub cleared : fd_isset fd h'.all_fds ≡ false
  pub others : (y : ℤ) → same_fd y fd ≡ false → fd_isset y h'.all_fds ≡ fd_isset y h.all_fds
  pub counted : h'.server.cur_connections ≡ h.server.cur_connections

let_go-LetGo :
    (i : ℕ) (c : Client) (later : List Arrival) (h : Host)
    → LetGo i c.socket_fd h (let_go i c later h)
let_go-LetGo i c later h = record {
  slots = refl;
  closed = refl;
  cleared = fd_clr-isset c.socket_fd h.all_fds;
  others = λ y ne. fd_clr-other c.socket_fd y h.all_fds ne;
  counted = refl;
}

-- Where memory is to be had, a client in a slot of the server's array, whose descriptor is ready to
-- be read and whose peer has closed its end, is let go as soon as the loop comes to its slot: the
-- loop goes on, the slot is empty and the others are as they were, the descriptor is closed and is
-- not waited for any more, and the other descriptors are waited for as before. The count of
-- connections does not go down.
pub serve_slot-LetGo :
    (i : ℕ) (c : Client) (listen_fds : List ℤ) (later : List Arrival) (h : Host)
    → get_elem? h.server.clients i ≡ some (some c)
    → is_open c.socket_fd ≡ true
    → fd_isset c.socket_fd listen_fds ≡ true
    → HasEnded (h.sockets c.socket_fd).inbox later
    → h.env.mallocs ≡ []
    → (h' : Host) × (serve_slot (some (some c)) i listen_fds h ≡ goes h') × LetGo i c.socket_fd h h'
unfolding serve_slot after_request drop_client removed is_client_status destroy_client_struct close
    free print
serve_slot-LetGo i c listen_fds later h at open_fd ready ended m =
    let gone = hung_up (connection c h) later in
    let s' : Server = record h.server { clients = set h.server.clients i (some gone.cli) } in
    let here =
      get_elem?-set_self h.server.clients i (some gone.cli)
        (lt-length_of_get_elem? h.server.clients i at) in
    (
      let_go i c later h,
      (rw ready (
          rw (process_request-ended later (connection c h) m ended) (
            rw
              (
                remove_client_index-taken i gone.cli s' _ here,
                set-set h.server.clients i (some gone.cli) none,
                open_fd,
              )
              refl))),
      let_go-LetGo i c later h,
    )
