-- ===== src/Protocol/Talking.antt =====
-- The client, turn by turn, in a conversation.
use Prim.Native.String.{String}
use chopserver.Base.{
  ℕ, ◌≡◌, refl, ℤ, pos, List, [], ◌∷◌, ◌++◌, none, true, false, Bool, is_neg, if◌then◌else◌,
}
use chopserver.Structs.{Ref, Client, cancel}
use chopserver.Env.{plain, print}
use chopserver.Machine.{Arrival, Conn, pure, gets, ◌>>=◌}
use chopserver.Machine.Leads.{Returns, gives, Returns-bind}
use chopserver.Data.Transfer.Rounds.{stream}
use chopserver.Debug.{printf}
use chopserver.Packet.Receiving.Exact.{after_print}
use chopserver.Manage.Request.{is_client_status}
use chopserver.Console.{
  Next, again, exit_1, ClientEvent, selects, read_server, read_user, client_turn,
}
use chopserver.Protocol.{
  Message, encode, IsProper, Mode, awake, asleep, Stance, stays, left, handle,
}
use chopserver.Protocol.Ends.{flag_of, IsIn, IsFluent, Went}
use chopserver.Protocol.Handling.{process_request-handle}

-- The client's process ends when its end of the conversation has left.
abbrev pub next_of : Stance → Next
next_of (stays mode) = again
next_of left = exit_1

-- Turns in which only the server has something to say, one for each message.
abbrev pub turns : List Message → List ClientEvent
turns [] = []
turns (m ∷ ms) = selects true none ∷ turns ms

abbrev has_left : Stance → Bool
has_left (stays mode) = false
has_left left = true

-- `is_client_status` finds exactly the ends that have left closing.
pub is_client_status-IsIn :
    (stance : Stance) (cli : Client)
    → IsIn stance cli
    → is_client_status Ref.here cli (pos cancel) ≡ has_left stance
unfolding is_client_status
is_client_status-IsIn (stays awake) cli e = rw e refl
is_client_status-IsIn (stays asleep) cli e = rw e refl
is_client_status-IsIn left cli e = rw (e.0, e.1) refl

module _ (tag : String) (clock : ℕ) where
  -- What the part of a turn that reads comes to once the request has been handled.
  finish_read-Returns :
      (r : ℤ) (stance : Stance) (answers : List Message) (inbox : List Arrival) (c c' : Conn)
      → (r ≡ pos 0) × Went tag clock stance answers inbox c c'
      → Returns
          (λ n d. (n ≡ next_of stance) × Went tag clock stance answers inbox c d)
          ((if is_neg r
              then pure exit_1
              else if is_client_status Ref.here c'.cli (pos cancel)
              then pure exit_1
              else pure again)
            c')
  unfolding pure
  finish_read-Returns r (stays mode) answers inbox c c' (done, w) =
      rw (done, is_client_status-IsIn (stays mode) c'.cli w.placed) (gives (refl, w))
  finish_read-Returns r left answers inbox c c' (done, w) =
      rw (done, is_client_status-IsIn left c'.cli w.placed) (gives (refl, w))

  -- There is nothing from the user.
  read_user-none : (stance : Stance) → read_user none (next_of stance) ≡ pure (next_of stance)
  unfolding read_user
  read_user-none (stays mode) = refl
  read_user-none left = refl

  pub client_turn-handle :
      (mode : Mode) (m : Message) (more : List ℕ) (rest : List Arrival) (c : Conn)
      → IsFluent tag clock c
      → c.cli.inc_flag ≡ flag_of mode
      → IsProper m
      → c.sock.inbox ≡ stream (encode m ++ more) rest
      → Returns
          (λ n c'.
            (n ≡ next_of (handle clock mode m).0)
            × Went tag clock
                (handle clock mode m).0
                (handle clock mode m).1
                (stream more rest)
                c
                c')
          (client_turn (selects true none) c)
  unfolding client_turn printf print read_server ◌>>=◌ gets pure
  client_turn-handle mode m more rest c f at proper e =
      let (stance, answers) = handle clock mode m in
      let c1 = after_print c (plain "\n" ∷ []) in
      let f1 : IsFluent tag clock c1 = record {
        quiet = record { memory = f.quiet.memory; writes = f.quiet.writes };
        tagged = f.tagged;
        window = f.window;
        ticks = f.ticks;
      } in
      Returns-bind
        (Returns-bind (process_request-handle tag clock mode m more rest c1 f1 at proper e)
          λ r c' h. finish_read-Returns r stance answers (stream more rest) c c' (
            h.0,
            record {
              fluent = h.1.fluent;
              placed = h.1.placed;
              sent = h.1.sent;
              unread = h.1.unread;
            },
          ))
        λ n d h. rw (h.0, read_user-none stance) (gives (refl, h.1))
