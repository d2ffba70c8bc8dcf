-- ===== src/Serve/Calm.antt =====
-- The part of a turn that serves the clients meets no undefined behaviour, but for that in
-- what a request prints.
use chopserver.Base.{
  ℕ, zero, suc, ◌+◌, ◌<◌, ◌≤◌, ◌^◌, ◌≡◌, refl, inl, inr, ℤ, pos, List, Option, none, some, arith,
  get_elem?, set, get_elem?-set_self, lt-length_of_get_elem?, get_elem?-some, Bool-cases,
}
use chopserver.Structs.{Ref, Client, Server, cancel}
use chopserver.Env.{Env, print, close, free}
use chopserver.Memory.{is_open, destroy_client_struct}
use chopserver.Machine.{weight, Socket, Run, Fault}
use chopserver.Fit.Segments.{IsFit}
use chopserver.Fit.Rules.{IsUnprintable}
use chopserver.Manage.Request.{is_client_status}
use chopserver.Manage.Request.Bounded.{ReturnsUnless, gives, meets, process_request-IsFit}
use chopserver.Manage.Clients.Accepting.{remove_client_index-taken}
use chopserver.Serve.{
  Host, Turn, goes, exits, faulty, and_next, removed, drop_client, after_request, with_socket,
  same_fd, connection, serve_slot, serve_clients, fd_isset,
}
use chopserver.Serve.Sound.{IsKept, Going, next, IsServing, AllClients-get}
use chopserver.Serve.Turns.{serve_slot-Going}

-- The side of the process has a name, no socket has more than `most` bytes to come, and at most
-- `conns` connections are counted.
pub record IsSheltered (most conns : ℕ) (h : Host) : Type 0 where
  pub header : h.env.header_type < 2
  pub sockets : (x : ℤ) → weight (h.sockets x).inbox ≤ most
  pub connections : h.server.cur_connections ≤ conns

-- A turn goes on with a host that satisfies `P`, ends the process, or meets undefined behaviour
-- that `F` has.
pub data Calm (F : Fault → Type 0) (P : Host → Type 0) : Turn → Type 0 where
  goes_on : {h : Host} → P h → Calm F P (goes h)
  stops : {e : Env} → Calm F P (exits e)
  meets_one : {f : Fault} → F f → Calm F P (faulty f)

pub Calm-next :
    {F G : Fault → Type 0} {P Q : Host → Type 0} {t : Turn} {k : Host → Turn}
    → ((f : Fault) → F f → G f)
    → Calm F P t
    → ((h : Host) → P h → Calm G Q (k h))
    → Calm G Q (and_next t k)
unfolding and_next
Calm-next wider (goes_on p) k = k _ p
Calm-next wider stops k = stops
Calm-next wider (meets_one u) k = meets_one (wider _ u)

-- A turn that is both, with what each says.
pub Calm-Going :
    {F : Fault → Type 0} {P Q : Host → Type 0} {t : Turn}
    → Going P t
    → Calm F Q t
    → Calm F (λ h. P h × Q h) t
Calm-Going (next p) (goes_on q) = goes_on (p, q)
Calm-Going g stops = stops
Calm-Going g (meets_one u) = meets_one u

pub destroy_client_struct-header :
    (c : Client) (e : Env)
    → (destroy_client_struct Ref.here (some c) e).2.header_type ≡ e.header_type
unfolding destroy_client_struct close free
destroy_client_struct-header c e = elim (Bool-cases (is_open c.socket_fd)) [
  | inl is ↦ rw is refl
  | inr not ↦ rw not refl
]

pub with_socket-weight :
    (most : ℕ) (fd x : ℤ) (s : Socket) (sockets : ℤ → Socket)
    → weight s.inbox ≤ most
    → ((y : ℤ) → weight (sockets y).inbox ≤ most)
    → weight (with_socket fd s sockets x).inbox ≤ most
with_socket-weight most fd x s sockets h all = elim (Bool-cases (same_fd fd x)) [
  | inl same ↦ rw same h
  | inr other ↦ rw other (all x)
]

module _ (most conns : ℕ) (small : most < 2 ^ 31) (fd : ℤ) (max : ℕ) where
  after_request-Calm :
      (i : ℕ) (c : Client) (h : Host) {r : Run ℤ}
      → IsSheltered most conns h
      → get_elem? h.server.clients i ≡ some (some c)
      → ReturnsUnless IsUnprintable (λ _. IsFit most) r
      → Calm IsUnprintable (IsSheltered most conns) (after_request i c.socket_fd h r)
  unfolding after_request drop_client removed print
  after_request-Calm i c h safe at (meets u) = meets_one u
  after_request-Calm i c h safe at (gives {c = c'} fit) =
      let sockets =
        λ (x : ℤ). with_socket-weight most c.socket_fd x c'.sock h.sockets fit.left safe.sockets in
      elim (Bool-cases (is_client_status Ref.here c'.cli (pos cancel))) [
        | inl closing ↦
            let s' : Server = record h.server { clients = set h.server.clients i (some c'.cli) } in
            let here =
              get_elem?-set_self h.server.clients i (some c'.cli)
                (lt-length_of_get_elem? h.server.clients i at) in
            rw closing (
              rw (remove_client_index-taken i c'.cli s' _ here) (
                goes_on (record {
                  header = rw (destroy_client_struct-header c'.cli _) fit.header;
                  sockets = sockets;
                  connections = safe.connections;
                })))
        | inr live ↦ rw live (
            goes_on
              (record { header = fit.header; sockets = sockets; connections = safe.connections }))
      ]

  connection-IsFit :
      (c : Client) (h : Host)
      → IsSheltered most conns h
      → c.window ≡ 255
      → IsFit most (connection c h)
  connection-IsFit c h safe wide = record {
    header = safe.header;
    window = omega (arith, wide);
    left = safe.sockets c.socket_fd;
    segments = tt;
  }

  serve_slot-Calm :
      (i : ℕ) (slot : Option Client) (listen_fds : List ℤ) (h : Host)
      → IsServing fd max h
      → IsSheltered most conns h
      → get_elem? h.server.clients i ≡ some slot
      → Calm IsUnprintable (IsSheltered most conns) (serve_slot (some slot) i listen_fds h)
  unfolding serve_slot
  serve_slot-Calm i none listen_fds h serving safe at = goes_on safe
  serve_slot-Calm i (some c) listen_fds h serving safe at =
      let kept = AllClients-get (IsKept fd) h.server.clients i serving.sound.each at in
      elim (Bool-cases (fd_isset c.socket_fd listen_fds)) [
        | inl ready ↦ rw ready (
            after_request-Calm i c h safe at (
              process_request-IsFit most small (connection c h)
                (connection-IsFit c h safe kept.window)))
        | inr waits ↦ rw waits (goes_on safe)
      ]

  pub serve_clients-Calm :
      (rounds i : ℕ) (listen_fds : List ℤ) (h : Host)
      → i + rounds ≡ max
      → IsServing fd max h
      → IsSheltered most conns h
      → Calm IsUnprintable (IsSheltered most conns) (serve_clients rounds i listen_fds h)
  unfolding serve_clients
  serve_clients-Calm zero i listen_fds h e serving safe = goes_on safe
  serve_clients-Calm (suc rounds) i listen_fds h e serving safe =
      let (slot, at) =
        get_elem?-some h.server.clients i
          (omega (arith, e, serving.sound.slots, serving.same_max)) in
      rw at (
        Calm-next (λ f u. u)
          (Calm-Going (serve_slot-Going fd max i slot listen_fds h serving at)
            (serve_slot-Calm i slot listen_fds h serving safe at))
          λ h' both.
            serve_clients-Calm rounds (i + 1) listen_fds h' (omega (arith, e)) both.0 both.1)
