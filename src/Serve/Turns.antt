-- ===== src/Serve/Turns.antt =====
-- The turns of the loop, and the hosts that the program reaches.
use chopserver.Base.{
  ltb, leb, pos_part, ℕ, zero, suc, ◌+◌, ◌≡◌, refl, inl, inr, ℤ, is_neg, List, Option, none, some,
  arith, get_elem?, length-replicate, replicate, get_elem?-some, Bool-cases, ◌==◌,
}
use chopserver.Structs.{Client, Server}
use chopserver.Env.{Env, malloc}
use chopserver.Memory.{init_server_struct}
use chopserver.Machine.{Io, Socket, fd_setsize}
use chopserver.Manage.Clients.{Defined}
use chopserver.Manage.Request.{is_client_status}
use chopserver.Manage.Clients.Slots.{occupied, AllClients}
use chopserver.Manage.Clients.Accepting.{
  invalid, lacks, overflows, seat-IsSound, Accepted, fails, crowded, seats,
  accept_new_client-Accepted,
}
use chopserver.Serve.{
  Host, Turn, goes, connection, serve_slot, serve_clients, welcome, accept_waiting, accepted_fd,
  client_bufsize, Event, interrupted, select_fails, selects, turn, listening, start, fd_isset,
  ready_of,
}
use chopserver.Serve.Sound.{
  IsKept, Going, next, ends, breaks, Going-next, IsServing, AllClients-get,
  process_request-IsHandled, after_request-Going,
}

module _ (fd : ℤ) (max : ℕ) where
  pub serve_slot-Going :
      (i : ℕ) (slot : Option Client) (listen_fds : List ℤ) (h : Host)
      → IsServing fd max h
      → get_elem? h.server.clients i ≡ some slot
      → Going (IsServing fd max) (serve_slot (some slot) i listen_fds h)
  unfolding serve_slot
  serve_slot-Going i none listen_fds h serving at = next serving
  serve_slot-Going i (some c) listen_fds h serving at =
      elim (Bool-cases (fd_isset c.socket_fd listen_fds)) [
        | inl ready ↦ rw ready (
            after_request-Going fd max i c h serving at (
              process_request-IsHandled fd (connection c h)
                (AllClients-get (IsKept fd) h.server.clients i serving.sound.each at)))
        | inr waits ↦ rw waits (next serving)
      ]

  pub serve_clients-Going :
      (rounds i : ℕ) (listen_fds : List ℤ) (h : Host)
      → i + rounds ≡ max
      → IsServing fd max h
      → Going (IsServing fd max) (serve_clients rounds i listen_fds h)
  unfolding serve_clients
  serve_clients-Going zero i listen_fds h e serving = next serving
  serve_clients-Going (suc rounds) i listen_fds h e serving =
      let (slot, at) =
        get_elem?-some h.server.clients i
          (omega (arith, e, serving.sound.slots, serving.same_max)) in
      rw at (
        Going-next (serve_slot-Going i slot listen_fds h serving at) λ h' serving'.
          serve_clients-Going rounds (i + 1) listen_fds h' (omega (arith, e)) serving')

  same_server :
      (h : Host) {h' : Host} → IsServing fd max h → h'.server ≡ h.server → IsServing fd max h'
  same_server h {h'} serving same = record {
    sound = rw same serving.sound;
    same_fd = rw same serving.same_fd;
    same_max = rw same serving.same_max;
    bounded = rw same serving.bounded;
  }

  welcome-Going :
      (arrival : Io (ℕ × Socket)) (a : Io ℕ) (h : Host) {r : Defined (ℤ × Server × Env)}
      → IsServing fd max h
      → Accepted h.server client_bufsize a h.env r
      → Going (IsServing fd max) (welcome h arrival r)
  unfolding welcome is_client_status
  welcome-Going arrival a h serving (invalid e) = next (same_server h serving refl)
  welcome-Going arrival a h serving (lacks e unmade closed) = next (same_server h serving refl)
  welcome-Going arrival a h serving (fails n e was_made failed closed) =
      next (same_server h serving refl)
  welcome-Going arrival a h serving (crowded new e was_made taken all closed) =
      next (same_server h serving refl)
  welcome-Going arrival a h serving (overflows over) = breaks
  welcome-Going arrival a h serving
        (seats new i newcli e was_made taken inside empty before small seated closed) =
      elim (Bool-cases (ltb new fd_setsize)) [
        | inr high ↦ rw high breaks
        | inl room ↦ rw room (
            next (record {
              sound =
                  seat-IsSound (IsKept fd) newcli i new client_bufsize h.server serving.sound empty
                    (record {
                      flag = inl refl;
                      stays = refl;
                      server = serving.same_fd;
                      window = refl;
                    });
              same_fd = serving.same_fd;
              same_max = serving.same_max;
              bounded = small;
            }))
      ]

  accept_waiting-Going :
      (listen_fds : List ℤ) (arrival : Io (ℕ × Socket)) (h : Host)
      → IsServing fd max h
      → Going (IsServing fd max) (accept_waiting listen_fds arrival h)
  unfolding accept_waiting
  accept_waiting-Going listen_fds arrival h serving =
      elim (Bool-cases (fd_isset h.server.server_fd listen_fds)) [
        | inl ready ↦ rw ready (
            welcome-Going arrival (accepted_fd arrival) h serving (
              accept_new_client-Accepted client_bufsize (accepted_fd arrival) h.server h.env
                serving.sound.slots))
        | inr waits ↦ rw waits (next serving)
      ]

  -- A turn of the loop on a server whose slots are in order ends the process or reaches undefined
  -- behaviour in a request, or goes on with the slots in order again: as many as
  -- `max_connections`, at most `cur_connections` of them taken, and every client that is kept one
  -- with a flag of NULL, IDLE or CANCEL that `is_client_status` does not find closing. Its
  -- requests end, on any finite input.
  pub turn-Going :
      (event : Event) (h : Host) → IsServing fd max h → Going (IsServing fd max) (turn event h)
  unfolding turn
  turn-Going interrupted h serving = ends
  turn-Going (select_fails e) h serving = elim (Bool-cases (e == 3)) [
    | inl again ↦ rw again (
        next (record {
          sound = serving.sound;
          same_fd = serving.same_fd;
          same_max = serving.same_max;
          bounded = serving.bounded;
        }))
    | inr other ↦ rw other ends
  ]
  turn-Going (selects ready arrival) h serving =
      Going-next
        (serve_clients-Going h.server.max_connections 0 (ready_of ready h.all_fds) _
          (omega (arith, serving.same_max))
          (record {
            sound = serving.sound;
            same_fd = serving.same_fd;
            same_max = serving.same_max;
            bounded = serving.bounded;
          }))
        λ h' serving'. accept_waiting-Going (ready_of ready h.all_fds) arrival h' serving'

occupied-replicate : (n : ℕ) → occupied (replicate n none) ≡ 0
occupied-replicate zero = refl
occupied-replicate (suc n) = omega (arith, occupied-replicate n)

AllClients-replicate : (P : Client → Type 0) (n : ℕ) → AllClients P (replicate n none)
AllClients-replicate P zero = tt
AllClients-replicate P (suc n) = AllClients-replicate P n

pub start-Going : (setup : ℤ) (env : Env) → Going (IsServing setup 20) (start setup env)
unfolding start listening init_server_struct
start-Going setup env =
    let e0 = record env { header_type = 0 } in
    elim (Bool-cases (malloc e0).0) [
      | inr out ↦ rw out ends
      | inl got ↦ elim (Bool-cases (malloc (malloc e0).1).0) [
        | inr out ↦ rw (got, out) ends
        | inl both ↦ elim (Bool-cases (is_neg setup)) [
          | inl failure ↦ rw (got, both, failure) ends
          | inr listens ↦ elim (Bool-cases (leb fd_setsize (pos_part setup))) [
            | inl high ↦ rw (got, both, listens, high) breaks
            | inr room ↦
                rw (got, both, listens, room)
                  (next (record {
                    sound = record {
                      slots = length-replicate {A = Option Client} 20 none;
                      counted = omega (arith, occupied-replicate 20);
                      each = AllClients-replicate (IsKept setup) 20;
                    };
                    same_fd = refl;
                    same_max = refl;
                    bounded = omega arith;
                  }))
          ]
        ]
      ]
    ]

-- A host of the program: at the start of the loop, or after one more turn.
pub data Reachable (setup : ℤ) (env : Env) : Host → Type 0 where
  started : {h : Host} → start setup env ≡ goes h → Reachable setup env h
  turned :
      {h h' : Host} (event : Event)
      → Reachable setup env h
      → turn event h ≡ goes h'
      → Reachable setup env h'

pub Going-goes : {P : Host → Type 0} {t : Turn} {h : Host} → Going P t → t ≡ goes h → P h
Going-goes {h = h} (next {h = h0} p) e = let same : h0 ≡ h = cc e in rw (← same) p
Going-goes ends e = absurd cc
Going-goes breaks e = absurd cc

-- However the events fall, and whatever arrives on the sockets: whenever the server is at the
-- start of a turn it has 20 slots, at most `cur_connections` of them taken, which is an `int` (the
-- increment of 2 ^ 31 - 1 is undefined, and no turn comes after it), and every client in
-- them has a flag of NULL, IDLE or CANCEL, is not one that `is_client_status` finds closing, and
-- has the server's descriptor and a window of 255.
pub Reachable-IsServing :
    (setup : ℤ) (env : Env) (h : Host) → Reachable setup env h → IsServing setup 20 h
Reachable-IsServing setup env h (started e) = Going-goes (start-Going setup env) e
Reachable-IsServing setup env h (turned {h = before} event reached e) =
    Going-goes (turn-Going setup 20 event before (Reachable-IsServing setup env before reached)) e
