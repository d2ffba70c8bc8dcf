-- ===== src/Serve/Talking.antt =====
-- The server, slot by slot, in the conversation of a client.
use Prim.Native.String.{String}
use chopserver.Base.{
  ℕ, ◌≡◌, ◌∙◌, refl, ap, ℤ, pos, negsuc, List, [], ◌∷◌, ◌++◌, none, some, get_elem?, set, set-set,
  get_elem?-set_self, lt-length_of_get_elem?, true, false, arith,
}
use chopserver.Structs.{Ref, Client, Server}
use chopserver.Env.{Env, with_int, print, close, free}
use chopserver.Memory.{is_open, destroy_client_struct}
use chopserver.Machine.{Arrival, Run}
use chopserver.Machine.Leads.{Returns, gives, Returns-both}
use chopserver.Data.Transfer.Rounds.{stream}
use chopserver.Stable.Rules.{Within}
use chopserver.Manage.Request.Keeps.{Keeps, process_request-Keeps}
use chopserver.Manage.Clients.Accepting.{remove_client_index-taken}
use chopserver.Protocol.{Message, encode, encode_all, IsProper, Mode, Stance, stays, left, handle}
use chopserver.Protocol.Ends.{flag_of, IsFluent, Went}
use chopserver.Protocol.Handling.{process_request-handle}
use chopserver.Protocol.Talking.{is_client_status-IsIn}
use chopserver.Serve.{
  Host, goes, same_fd, fd_isset, connection, serve_slot, after_request, drop_client, removed,
}
use chopserver.Serve.Leaving.{fd_clr-isset, fd_clr-other}

-- What the slot of a client holds afterwards: the client in the mode that it is in, waited for as
-- before; or nothing, its descriptor closed and not waited for any more.
abbrev pub IsSeated : Stance → (i : ℕ) → Client → (h h' : Host) → Type 0
IsSeated (stays mode) i c h h' =
    ((c' : Client) × (h'.server.clients ≡ set h.server.clients i (some c'))
      × (c'.inc_flag ≡ flag_of mode)
      × (c'.socket_fd ≡ c.socket_fd))
    × (h'.all_fds ≡ h.all_fds)
    × (h'.env.closed ≡ h.env.closed)
IsSeated left i c h h' =
    (h'.server.clients ≡ set h.server.clients i none)
    × (fd_isset c.socket_fd h'.all_fds ≡ false)
    × (h'.env.closed ≡ h.env.closed ++ c.socket_fd ∷ [])

-- What has become of the server once the message of a client in slot `i` was taken.
pub record Served (stance : Stance) (answers : List Message) (inbox : List Arrival) (i : ℕ)
    (c : Client) (h h' : Host) : Type 0 where
  pub seat : IsSeated stance i c h h'
  pub sent : (h'.sockets c.socket_fd).sent ≡ (h.sockets c.socket_fd).sent ++ encode_all answers
  pub unread : (h'.sockets c.socket_fd).inbox ≡ inbox
  pub elsewhere : (x : ℤ) → same_fd c.socket_fd x ≡ false → h'.sockets x ≡ h.sockets x
  pub others :
      (x : ℤ) → same_fd x c.socket_fd ≡ false → fd_isset x h'.all_fds ≡ fd_isset x h.all_fds
  pub memory : h'.env.mallocs ≡ []
  pub header : h'.env.header_type ≡ h.env.header_type
  pub ticks : h'.env.clock ≡ h.env.clock

pub same_fd_refl : (a : ℤ) → same_fd a a ≡ true
same_fd_refl (pos n) = ground arith
same_fd_refl (negsuc n) = ground arith

destroy_client_struct-closed :
    (c : Client) (fd : ℤ) (e : Env)
    → c.socket_fd ≡ fd
    → is_open fd ≡ true
    → (destroy_client_struct Ref.here (some c) e).2.closed ≡ e.closed ++ fd ∷ []
unfolding destroy_client_struct close free
destroy_client_struct-closed c fd e same open_fd = rw (same, open_fd) refl

-- Two environments that differ in what was released, closed and printed only.
record IsAlike (e e' : Env) : Type 0 where
  memory : e'.mallocs ≡ e.mallocs
  header : e'.header_type ≡ e.header_type
  ticks : e'.clock ≡ e.clock

destroy_client_struct-IsAlike :
    (c : Client) (e : Env)
    → is_open c.socket_fd ≡ true
    → IsAlike e (destroy_client_struct Ref.here (some c) e).2
unfolding destroy_client_struct close free
destroy_client_struct-IsAlike c e open_fd =
    rw open_fd (record { memory = refl; header = refl; ticks = refl })

module _ (tag : String) (clock : ℕ) where
  after_request-Served :
      (stance : Stance) (answers : List Message) (inbox : List Arrival) (i : ℕ) (c : Client)
      (h : Host) {r : Run ℤ}
      → get_elem? h.server.clients i ≡ some (some c)
      → is_open c.socket_fd ≡ true
      → Returns
          (λ r c'.
            ((r ≡ pos 0) × Went tag clock stance answers inbox (connection c h) c')
            × Within Keeps (connection c h) c')
          r
      → (h' : Host) × (after_request i c.socket_fd h r ≡ goes h')
        × Served stance answers inbox i c h h'
  unfolding after_request drop_client removed print
  after_request-Served (stays mode) answers inbox i c h at open_fd (gives {c = c'} (w, k)) =
      let live = is_client_status-IsIn (stays mode) c'.cli w.1.placed in
      let self = same_fd_refl c.socket_fd in
      rw live (
        _,
        refl,
        record {
          seat = ((c'.cli, refl, w.1.placed, k.related.socket_fd), refl, k.related.closed);
          sent = rw self w.1.sent;
          unread = rw self w.1.unread;
          elsewhere = λ x other. rw other refl;
          others = λ x other. refl;
          memory = w.1.fluent.quiet.memory;
          header = k.related.header_type;
          ticks = k.related.clock;
        },
      )
  after_request-Served left answers inbox i c h at open_fd (gives {c = c'} (w, k)) =
      let closing = is_client_status-IsIn left c'.cli w.1.placed in
      let self = same_fd_refl c.socket_fd in
      let s' : Server = record h.server { clients = set h.server.clients i (some c'.cli) } in
      let here =
        get_elem?-set_self h.server.clients i (some c'.cli)
          (lt-length_of_get_elem? h.server.clients i at) in
      let gone =
        destroy_client_struct-IsAlike c'.cli
          (print (with_int "[CLIENT %d] Connection closed.\n" c.socket_fd) c'.env)
          (rw k.related.socket_fd open_fd) in
      rw closing (
        rw
          (
            remove_client_index-taken i c'.cli s' _ here,
            set-set h.server.clients i (some c'.cli) none,
          )
          (
            _,
            refl,
            record {
              seat = (
                refl,
                fd_clr-isset c.socket_fd h.all_fds,
                destroy_client_struct-closed c'.cli c.socket_fd _ k.related.socket_fd open_fd
                    ∙ ap (λ l. l ++ c.socket_fd ∷ []) k.related.closed,
              );
              sent = rw self w.1.sent;
              unread = rw self w.1.unread;
              elsewhere = λ x other. rw other refl;
              others = λ x other. fd_clr-other c.socket_fd x h.all_fds other;
              memory = gone.memory ∙ w.1.fluent.quiet.memory;
              header = gone.header ∙ k.related.header_type;
              ticks = gone.ticks ∙ k.related.clock;
            },
          ))

  -- Where every `malloc` succeeds and every write to the client is taken whole, the server takes a
  -- message that has come whole from a client that is awake or asleep, in a slot of its array, as
  -- the protocol says: the answers of the protocol go out on the client's socket, exactly what
  -- follows the message is left to read there, and no other socket is touched; the slot holds the
  -- client in the mode that the message leads to, waited for as before, or, where the protocol says
  -- that the client has left, nothing, its descriptor closed and not waited for any more.
  pub serve_slot-handle :
      (mode : Mode) (m : Message) (more : List ℕ) (rest : List Arrival) (i : ℕ) (c : Client)
      (listen_fds : List ℤ) (h : Host)
      → get_elem? h.server.clients i ≡ some (some c)
      → is_open c.socket_fd ≡ true
      → fd_isset c.socket_fd listen_fds ≡ true
      → IsFluent tag clock (connection c h)
      → c.inc_flag ≡ flag_of mode
      → IsProper m
      → (h.sockets c.socket_fd).inbox ≡ stream (encode m ++ more) rest
      → (h' : Host) × (serve_slot (some (some c)) i listen_fds h ≡ goes h')
        × Served (handle clock mode m).0 (handle clock mode m).1 (stream more rest) i c h h'
  unfolding serve_slot
  serve_slot-handle mode m more rest i c listen_fds h at open_fd ready f flag proper e = rw ready (
      after_request-Served (handle clock mode m).0 (handle clock mode m).1 (stream more rest) i c h
        at open_fd
        (Returns-both
          (process_request-handle tag clock mode m more rest (connection c h) f flag proper e)
          (process_request-Keeps Ref.here Ref.here (connection c h))))
