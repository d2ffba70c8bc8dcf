-- ===== src/Protocol/Looping.antt =====
-- The client's loop in a conversation.
use Prim.Native.String.{String}
use mathlib.Core.List.{append_assoc, append-nil}
use chopserver.Base.{ℕ, ◌≡◌, ◌∙◌, refl, sym, ap, List, [], ◌∷◌, ◌++◌}
use chopserver.Machine.{Arrival, Conn, M, pure, ◌>>=◌}
use chopserver.Machine.Leads.{Returns, gives, Returns-bind, Returns-mono}
use chopserver.Data.Transfer.Rounds.{stream}
use chopserver.Console.{Next, and_again, client_loop}
use chopserver.Protocol.{
  Message, encode, encode_all, AllProper, Mode, Stance, stays, left, handle, Course, go_on,
  converse,
}
use chopserver.Protocol.Ends.{flag_of, IsFluent, Went}
use chopserver.Protocol.Talking.{next_of, turns, client_turn-handle}

encode_all-append : (ms ns : List Message) → encode_all (ms ++ ns) ≡ encode_all ms ++ encode_all ns
unfolding encode_all
encode_all-append [] ns = refl
encode_all-append (m ∷ ms) ns =
    ap (λ l. encode m ++ l) (encode_all-append ms ns)
    ∙ sym (append_assoc (encode m) (encode_all ms) (encode_all ns))

-- Messages that come in one arrival or in several, each message whole in one of them, before
-- `more` and `rest`: `bs` is what has come together with a message behind it, and where it is empty
-- the next message comes in an arrival of its own.
pub data Comes (more : List ℕ) (rest : List Arrival) : List Message → List Arrival → Type 0 where
  no_more : Comes more rest [] (stream more rest)
  comes :
      {m : Message} {ms : List Message} (bs : List ℕ) (rest' : List Arrival)
      → Comes more rest ms (stream bs rest')
      → Comes more rest (m ∷ ms) (stream (encode m ++ bs) rest')

module _ (tag : String) (clock : ℕ) where
  Went-preceded :
      {stance : Stance} {mode : Mode} {answers later : List Message} {inbox inbox' : List Arrival}
      {c d c' : Conn}
      → Went tag clock (stays mode) answers inbox c d
      → Went tag clock stance later inbox' d c'
      → Went tag clock stance (answers ++ later) inbox' c c'
  Went-preceded {answers} {later} {c} v w = record {
    fluent = w.fluent;
    placed = w.placed;
    sent =
        w.sent
        ∙ ap (λ l. l ++ encode_all later) v.sent
        ∙ append_assoc c.sock.sent (encode_all answers) (encode_all later)
        ∙ ap (λ l. c.sock.sent ++ l) (sym (encode_all-append answers later));
    unread = w.unread;
  }

  -- What was read is what is no longer there.
  Went-unread :
      {stance : Stance} {answers : List Message} {inbox : List Arrival} {c c' : Conn}
      → Went tag clock stance answers inbox c c'
      → Went tag clock stance answers c'.sock.inbox c c'
  Went-unread w = record { fluent = w.fluent; placed = w.placed; sent = w.sent; unread = refl }

  -- `I ms inbox` says that the messages `ms` are still to come with `inbox`.
  module _ (I : List Message → List Arrival → Type 0)
      (first : (m : Message) (ms : List Message) (inbox : List Arrival)
        → I (m ∷ ms) inbox
        → (more : List ℕ) × (rest : List Arrival) × (inbox ≡ stream (encode m ++ more) rest)
          × I ms (stream more rest)) where
    -- What follows a turn, if anything does.
    Follows : Conn → Course → M Next → Conn → Type 0
    Follows c course run d =
        Returns
          (λ n c'.
            (n ≡ next_of course.stance)
            × I course.untaken c'.sock.inbox
            × Went tag clock course.stance course.answers c'.sock.inbox c c')
          (run d)

    go_on-Follows :
        (step : Stance × List Message) (ms : List Message) (inbox : List Arrival)
        (course : Mode → Course) (later : M Next) (c d : Conn)
        → Went tag clock step.0 step.1 inbox c d
        → I ms inbox
        → ((mode : Mode)
            → Went tag clock (stays mode) step.1 inbox c d
            → Follows d (course mode) later d)
        → Follows c (go_on step ms course) (and_again (next_of step.0) later) d
    unfolding Follows go_on and_again pure
    go_on-Follows (stays mode, answers) ms inbox course later c d w i follow =
        Returns-mono (follow mode w) λ n c' h. (h.0, h.1, Went-preceded w h.2)
    go_on-Follows (left, answers) ms inbox course later c d w i follow =
        gives (refl, rw w.unread i, Went-unread w)

    client_loop-Follows :
        (mode : Mode) (ms : List Message) (c : Conn)
        → IsFluent tag clock c
        → c.cli.inc_flag ≡ flag_of mode
        → AllProper ms
        → I ms c.sock.inbox
        → Follows c (converse clock mode ms) (client_loop (turns ms)) c
    unfolding client_loop converse ◌>>=◌ pure Follows encode_all
    client_loop-Follows mode [] c f at proper i = gives (
      refl,
      i,
      record { fluent = f; placed = at; sent = sym (append-nil c.sock.sent); unread = refl },
    )
    client_loop-Follows mode (m ∷ ms) c f at proper i =
        let (more, rest, e, later) = first m ms c.sock.inbox i in
        Returns-bind (client_turn-handle tag clock mode m more rest c f at proper.0 e) λ n d h.
          rw h.0 (
            go_on-Follows (handle clock mode m) ms (stream more rest) _ (client_loop (turns ms)) c d
              h.1 later
              λ mode' w.
                client_loop-Follows mode' ms d w.fluent w.placed proper.1 (rw w.unread later))

  first_of_stream :
      (more : List ℕ) (rest : List Arrival) (m : Message) (ms : List Message) (inbox : List Arrival)
      → inbox ≡ stream (encode_all (m ∷ ms) ++ more) rest
      → (more' : List ℕ) × (rest' : List Arrival) × (inbox ≡ stream (encode m ++ more') rest')
        × (stream more' rest' ≡ stream (encode_all ms ++ more) rest)
  unfolding encode_all
  first_of_stream more rest m ms inbox e = (
    encode_all ms ++ more,
    rest,
    e ∙ ap (λ l. stream l rest) (append_assoc (encode m) (encode_all ms) more),
    refl,
  )

  -- Where every `malloc` succeeds, every write is taken whole, the side has a name for its messages
  -- and the window has room for a `time_t`, the client's loop, in turns in which only the server
  -- has something to say, and where what the server says has come as one arrival, goes through any
  -- sequence of messages as the protocol does: it ends the
  -- process exactly where the protocol says that this end has left, and its flags show the mode that
  -- the messages lead to; what it has sent are the answers of the protocol, in order; and what it
  -- has not read are the messages that the protocol has not taken, and what follows them.
  pub client_loop-converse :
      (mode : Mode) (ms : List Message) (more : List ℕ) (rest : List Arrival) (c : Conn)
      → IsFluent tag clock c
      → c.cli.inc_flag ≡ flag_of mode
      → AllProper ms
      → c.sock.inbox ≡ stream (encode_all ms ++ more) rest
      → Returns
          (λ n c'.
            (n ≡ next_of (converse clock mode ms).stance)
            × Went tag clock
                (converse clock mode ms).stance
                (converse clock mode ms).answers
                (stream (encode_all (converse clock mode ms).untaken ++ more) rest)
                c
                c')
          (client_loop (turns ms) c)
  unfolding Follows
  client_loop-converse mode ms more rest c f at proper e =
      Returns-mono
        (client_loop-Follows (λ ms inbox. inbox ≡ stream (encode_all ms ++ more) rest)
          (first_of_stream more rest) mode ms c f at proper e)
        λ n c' h.
          (h.0, record { fluent = h.2.fluent; placed = h.2.placed; sent = h.2.sent; unread = h.1 })

  first_of_Comes :
      (more : List ℕ) (rest : List Arrival) (m : Message) (ms : List Message) (inbox : List Arrival)
      → Comes more rest (m ∷ ms) inbox
      → (more' : List ℕ) × (rest' : List Arrival) × (inbox ≡ stream (encode m ++ more') rest')
        × Comes more rest ms (stream more' rest')
  first_of_Comes more rest m ms inbox (comes bs rest' later) = (bs, rest', refl, later)

  -- The same for messages that come in any number of arrivals, each of them whole in one.
  pub client_loop-Comes :
      (mode : Mode) (ms : List Message) (more : List ℕ) (rest : List Arrival) (c : Conn)
      → IsFluent tag clock c
      → c.cli.inc_flag ≡ flag_of mode
      → AllProper ms
      → Comes more rest ms c.sock.inbox
      → Returns
          (λ n c'.
            (n ≡ next_of (converse clock mode ms).stance)
            × Comes more rest (converse clock mode ms).untaken c'.sock.inbox
            × Went tag clock
                (converse clock mode ms).stance
                (converse clock mode ms).answers
                c'.sock.inbox
                c
                c')
          (client_loop (turns ms) c)
  unfolding Follows
  client_loop-Comes mode ms more rest c f at proper i =
      client_loop-Follows (Comes more rest) (first_of_Comes more rest) mode ms c f at proper i
