-- ===== src/Protocol/Handling.antt =====
-- `process_request` handles one message as the protocol says.
use Prim.Native.String.{String}
use mathlib.Core.List.{append-nil}
use chopserver.Base.{ℕ, ◌≡◌, ◌∙◌, refl, sym, ap, pos, List, [], ◌∷◌, ◌++◌, arith}
use chopserver.Structs.{Ref}
use chopserver.Env.{free}
use chopserver.Memory.{free_segments}
use chopserver.Machine.{Arrival, Conn, pure, gets, ◌>>=◌}
use chopserver.Machine.Leads.{Returns, gives, Returns-both, Returns-mono}
use chopserver.Data.Transfer.Rounds.{stream}
use chopserver.Packet.Sending.{word_bytes}
use chopserver.Packet.Sending.Exact.{length-word_bytes}
use chopserver.Packet.Receiving.{parse_header}
use chopserver.Manage.Request.{process_request}
use chopserver.Manage.Request.Keeps.{process_request-Keeps}
use chopserver.Manage.Request.Exact.{process_request-header}
use chopserver.Manage.Request.Asks.{escape-Answered}
use chopserver.Manage.Request.Texts.{process_request-text}
use chopserver.Manage.Request.Enquiries.{
  plain_one, returning, timed, enquiry-Answered, time-Answered,
}
use chopserver.Protocol.{
  an_enquiry, leaving, Message, nothing, text, enquire, enquire_back, ask_time, tell_time, sleep,
  wake, leave, confirm, refuse, encode, encode_all, IsProper, Mode, stays, left, handle,
}
use chopserver.Protocol.Ends.{flag_of, IsFluent, Went, step-Went}
use chopserver.Protocol.Modes.{
  IsHandled, confirm-IsHandled, refuse-IsHandled, sleep-IsHandled, wake-IsHandled,
}

module _ (tag : String) (clock : ℕ) where
  text-IsHandled :
      (mode : Mode) (count width : ℕ) (body more : List ℕ) (rest : List Arrival) (c : Conn)
      → IsFluent tag clock c
      → c.cli.inc_flag ≡ flag_of mode
      → IsProper (text count width body)
      → c.sock.inbox ≡ stream (0 ∷ 2 ∷ count ∷ width ∷ body ++ more) rest
      → IsHandled tag clock mode (text count width body) more rest c
  unfolding IsHandled handle encode_all encode
  text-IsHandled mode count width body more rest c f at proper e =
      Returns-mono
        (Returns-both
          (process_request-text tag count width body more rest c f.quiet f.tagged
            (omega (arith, f.window)) proper.0 proper.1 e)
          (process_request-Keeps Ref.here Ref.here c))
        λ r c' both.
          let t = both.0.1 in
          let w = both.1 in
          (
            both.0.0,
            record {
              fluent = record {
                quiet = record { memory = t.memory; writes = t.writes };
                tagged = rw w.related.header_type f.tagged;
                window = rw w.related.window f.window;
                ticks = w.related.clock ∙ f.ticks;
              };
              placed = t.inc_flag ∙ at;
              sent = t.sent;
              unread = t.inbox;
            },
          )

  -- A packet with the status 0 is taken, and that is all.
  nothing-IsHandled :
      (mode : Mode) (more : List ℕ) (rest : List Arrival) (c : Conn)
      → IsFluent tag clock c
      → c.cli.inc_flag ≡ flag_of mode
      → c.sock.inbox ≡ stream (0 ∷ 0 ∷ 0 ∷ 0 ∷ more) rest
      → IsHandled tag clock mode nothing more rest c
  unfolding IsHandled handle encode_all parse_header ◌>>=◌ gets pure free_segments free
  nothing-IsHandled mode more rest c f at e = process_request-header 0 0 0 0 more rest c f.quiet e (
      gives (
        refl,
        record {
          fluent = record {
            quiet = record { memory = f.quiet.memory; writes = f.quiet.writes };
            tagged = f.tagged;
            window = f.window;
            ticks = f.ticks;
          };
          placed = at;
          sent = sym (append-nil c.sock.sent);
          unread = refl;
        },
      ))

  time-IsHandled :
      (mode : Mode) (now : ℕ) (more : List ℕ) (rest : List Arrival) (c : Conn)
      → IsFluent tag clock c
      → c.cli.inc_flag ≡ flag_of mode
      → c.sock.inbox ≡ stream (0 ∷ 5 ∷ 2 ∷ 8 ∷ word_bytes 8 now ++ more) rest
      → IsHandled tag clock mode (tell_time now) more rest c
  unfolding IsHandled handle encode_all encode
  time-IsHandled mode now more rest c f at e =
      step-Went tag clock c (stays mode) (confirm an_enquiry ∷ []) f refl (λ cli i o. i ∙ at)
        (time-Answered tag (word_bytes 8 now) more rest c f.quiet f.tagged f.window
          (length-word_bytes 8 now) e)

  -- Where every `malloc` succeeds, every write is taken whole, the side has a name for its messages
  -- and the window has room for a `time_t`, `process_request` on an end that is awake or asleep
  -- returns 0 on any message that has come whole, and does what the protocol says: the flags show
  -- the mode that the message leads to (both hold CANCEL where the end has left), exactly the
  -- answers are sent, and exactly what follows the message is left to read. The conditions hold
  -- again afterwards.
  pub process_request-handle :
      (mode : Mode) (m : Message) (more : List ℕ) (rest : List Arrival) (c : Conn)
      → IsFluent tag clock c
      → c.cli.inc_flag ≡ flag_of mode
      → IsProper m
      → c.sock.inbox ≡ stream (encode m ++ more) rest
      → Returns
          (λ r c'.
            (r ≡ pos 0)
            × Went tag clock
                (handle clock mode m).0
                (handle clock mode m).1
                (stream more rest)
                c
                c')
          (process_request Ref.here Ref.here c)
  unfolding IsHandled encode encode_all handle
  process_request-handle mode nothing more rest c f at proper e =
      nothing-IsHandled mode more rest c f at e
  process_request-handle mode (text count width body) more rest c f at proper e =
      text-IsHandled mode count width body more rest c f at proper e
  process_request-handle mode enquire more rest c f at proper e =
      step-Went tag clock c (stays mode) (confirm an_enquiry ∷ []) f refl (λ cli i o. i ∙ at)
        (enquiry-Answered tag 0 more rest c plain_one f.quiet f.tagged e)
  process_request-handle mode enquire_back more rest c f at proper e =
      step-Went tag clock c (stays mode) (enquire ∷ []) f refl (λ cli i o. i ∙ at)
        (enquiry-Answered tag 0 more rest c returning f.quiet f.tagged e)
  process_request-handle mode ask_time more rest c f at proper e =
      step-Went tag clock c (stays mode) (tell_time clock ∷ []) f
        (append-nil _ ∙ ap (λ t. 0 ∷ 5 ∷ 2 ∷ 8 ∷ word_bytes 8 t) (sym f.ticks)) (λ cli i o. i ∙ at)
        (enquiry-Answered tag 0 more rest c timed f.quiet f.tagged e)
  process_request-handle mode (tell_time now) more rest c f at proper e =
      time-IsHandled mode now more rest c f at e
  process_request-handle mode sleep more rest c f at proper e =
      sleep-IsHandled tag clock mode more rest c f at e
  process_request-handle mode wake more rest c f at proper e =
      wake-IsHandled tag clock mode more rest c f at e
  process_request-handle mode leave more rest c f at proper e =
      step-Went tag clock c left (confirm leaving ∷ []) f refl (λ cli i o. (i, o))
        (escape-Answered tag more rest c f.quiet f.tagged e)
  process_request-handle mode (confirm topic) more rest c f at proper e =
      confirm-IsHandled tag clock mode topic more rest c f at e
  process_request-handle mode (refuse topic) more rest c f at proper e =
      refuse-IsHandled tag clock mode topic more rest c f at e
