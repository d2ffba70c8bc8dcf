-- ===== src/Serve/Sound.antt =====
-- The server keeps its slots in order over every turn of its loop.
use chopserver.Base.{
  ◌<◌, ◌^◌, ℕ, zero, suc, ◌≡◌, ◌∙◌, inl, inr, ◌⊎◌, ℤ, pos, List, [], ◌∷◌, Option, none, some, arith,
  get_elem?, set, length-set, set-set, get_elem?-set_self, lt-length_of_get_elem?, false,
  Bool-cases,
}
use chopserver.Structs.{Ref, Client, Server, cancel}
use chopserver.Env.{Env}
use chopserver.Machine.{Fault, Conn, Run}
use chopserver.Machine.Leads.{Leads, returns, faults, Leads-both, Leads-mono}
use chopserver.Manage.Request.{process_request, is_client_status}
use chopserver.Manage.Request.Keeps.{process_request-Keeps}
use chopserver.Manage.Request.Flags.{HasFlag, process_request-HasFlag}
use chopserver.Manage.Clients.Slots.{occupied-set, AllClients, AllClients-set, AllClients-clear}
use chopserver.Manage.Clients.Accepting.{IsSound, remove_client_index-taken}
use chopserver.Serve.{
  Host, Turn, goes, exits, faulty, and_next, removed, drop_client, after_request,
}

-- A client that the server keeps: awake or asleep (or marked as closing in its incoming flag
-- alone), never one that `is_client_status` finds closing, with the server's descriptor and window.
pub record IsKept (server_fd : ℤ) (c : Client) : Type 0 where
  pub flag : (c.inc_flag ≡ 0) ⊎ ((c.inc_flag ≡ 22) ⊎ (c.inc_flag ≡ 24))
  pub stays : is_client_status Ref.here c (pos cancel) ≡ false
  pub server : c.server_fd ≡ server_fd
  pub window : c.window ≡ 255

-- A turn that does not end the process satisfies `P` with its host.
pub data Going (P : Host → Type 0) : Turn → Type 0 where
  next : {h : Host} → P h → Going P (goes h)
  ends : {e : Env} → Going P (exits e)
  breaks : {f : Fault} → Going P (faulty f)

pub Going-next :
    {P Q : Host → Type 0} {t : Turn} {k : Host → Turn}
    → Going P t
    → ((h : Host) → P h → Going Q (k h))
    → Going Q (and_next t k)
unfolding and_next
Going-next (next p) k = k _ p
Going-next ends k = ends
Going-next breaks k = breaks

-- The server is sound, and is the one that it was.
pub record IsServing (fd : ℤ) (max : ℕ) (h : Host) : Type 0 where
  pub sound : IsSound (IsKept fd) h.server
  pub same_fd : h.server.server_fd ≡ fd
  pub same_max : h.server.max_connections ≡ max
  pub bounded : h.server.cur_connections < 2 ^ 31

pub AllClients-get :
    (P : Client → Type 0) (slots : List (Option Client)) (i : ℕ) {c : Client}
    → AllClients P slots
    → get_elem? slots i ≡ some (some c)
    → P c
AllClients-get P [] i all e = absurd cc
AllClients-get P (none ∷ slots) zero all e = absurd cc
AllClients-get P (some d ∷ slots) zero {c} all e = let same : d ≡ c = cc e in rw (← same) all.0
AllClients-get P (none ∷ slots) (suc i) all e = AllClients-get P slots i all e
AllClients-get P (some d ∷ slots) (suc i) all e = AllClients-get P slots i all.1 e

module _ (fd : ℤ) where
  clear-IsSound :
      (i : ℕ) (old : Option Client) (s : Server)
      → IsSound (IsKept fd) s
      → get_elem? s.clients i ≡ some old
      → IsSound (IsKept fd) (record s { clients = set s.clients i none })
  clear-IsSound i old s sound at = record {
    slots = length-set s.clients i none ∙ sound.slots;
    counted = omega (arith, occupied-set s.clients i old none at, sound.counted);
    each = AllClients-clear (IsKept fd) s.clients i sound.each;
  }

  put-IsSound :
      (i : ℕ) (c d : Client) (s : Server)
      → IsSound (IsKept fd) s
      → get_elem? s.clients i ≡ some (some c)
      → IsKept fd d
      → IsSound (IsKept fd) (record s { clients = set s.clients i (some d) })
  put-IsSound i c d s sound at kept = record {
    slots = length-set s.clients i (some d) ∙ sound.slots;
    counted = omega (arith, occupied-set s.clients i (some c) (some d) at, sound.counted);
    each = AllClients-set (IsKept fd) s.clients i d kept sound.each;
  }

-- What a request leaves of a client that was kept, before the test of its flags.
pub record IsHandled (fd : ℤ) (c : Conn) : Type 0 where
  pub flag : HasFlag c
  pub server : c.cli.server_fd ≡ fd
  pub window : c.cli.window ≡ 255

pub process_request-IsHandled :
    (fd : ℤ) (c : Conn)
    → IsKept fd c.cli
    → Leads (λ _. IsHandled fd) (process_request Ref.here Ref.here c)
process_request-IsHandled fd c kept =
    Leads-mono
      (Leads-both (process_request-HasFlag Ref.here Ref.here c kept.flag)
        (process_request-Keeps Ref.here Ref.here c))
      λ r c' both. record {
        flag = both.0;
        server = both.1.related.server_fd ∙ kept.server;
        window = both.1.related.window ∙ kept.window;
      }

module _ (fd : ℤ) (max : ℕ) where
  pub after_request-Going :
      (i : ℕ) (c : Client) (h : Host) {r : Run ℤ}
      → IsServing fd max h
      → get_elem? h.server.clients i ≡ some (some c)
      → Leads (λ _. IsHandled fd) r
      → Going (IsServing fd max) (after_request i c.socket_fd h r)
  unfolding after_request drop_client removed
  after_request-Going i c h serving at faults = breaks
  after_request-Going i c h serving at (returns {a} {c = c'} handled) =
      elim (Bool-cases (is_client_status Ref.here c'.cli (pos cancel))) [
        | inl closing ↦
            let s' = record h.server { clients = set h.server.clients i (some c'.cli) } in
            let here =
              get_elem?-set_self h.server.clients i (some c'.cli)
                (lt-length_of_get_elem? h.server.clients i at) in
            rw closing (
              rw
                (
                  remove_client_index-taken i c'.cli s' _ here,
                  set-set h.server.clients i (some c'.cli) none,
                )
                (next (record {
                  sound = clear-IsSound fd i (some c) h.server serving.sound at;
                  same_fd = serving.same_fd;
                  same_max = serving.same_max;
                  bounded = serving.bounded;
                })))
        | inr live ↦ rw live (
            next (record {
              sound = put-IsSound fd i c c'.cli h.server serving.sound at (record {
                flag = handled.flag;
                stays = live;
                server = handled.server;
                window = handled.window;
              });
              same_fd = serving.same_fd;
              same_max = serving.same_max;
              bounded = serving.bounded;
            }))
      ]
