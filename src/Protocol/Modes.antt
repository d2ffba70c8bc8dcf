-- ===== src/Protocol/Modes.antt =====
-- Confirmations, refusals, and the requests to sleep and to wake.
use Prim.Native.String.{String}
use chopserver.Base.{ℕ, ◌≡◌, ◌∙◌, refl, pos, List, [], ◌∷◌, ◌==◌, true, false}
use chopserver.Structs.{Ref}
use chopserver.Machine.{Arrival, Conn}
use chopserver.Machine.Leads.{Returns}
use chopserver.Data.Transfer.Rounds.{stream}
use chopserver.Manage.Request.{process_request}
use chopserver.Manage.Request.Asks.{idle-Answered, wakeup-Answered}
use chopserver.Manage.Request.Replies.{
  IsConfirmable, acknowledge-Answered, neg_acknowledge-Answered,
}
use chopserver.Protocol.{
  Topic, a_text, an_enquiry, waking, sleeping, leaving, topic_byte, Message, sleep, wake, confirm,
  refuse, encode, encode_all, Mode, awake, asleep, stays, left, handle,
}
use chopserver.Protocol.Ends.{flag_of, IsFluent, Went, step-Went}

abbrev topic_name : Topic → String
topic_name a_text = "START_TEXT"
topic_name an_enquiry = "ENQURIY"
topic_name waking = "WAKEUP"
topic_name sleeping = "IDLE"
topic_name leaving = "ESCAPE"

topic-IsConfirmable : (topic : Topic) → IsConfirmable (topic_byte topic) (topic_name topic)
topic-IsConfirmable a_text = IsConfirmable.text
topic-IsConfirmable an_enquiry = IsConfirmable.ping
topic-IsConfirmable waking = IsConfirmable.wake
topic-IsConfirmable sleeping = IsConfirmable.sleep
topic-IsConfirmable leaving = IsConfirmable.leave

module _ (tag : String) (clock : ℕ) where
  unfoldable pub IsHandled : Mode → Message → (more : List ℕ) → List Arrival → Conn → Type 0
  IsHandled mode m more rest c =
      Returns
        (λ r c'.
          (r ≡ pos 0)
          × Went tag clock (handle clock mode m).0 (handle clock mode m).1 (stream more rest) c c')
        (process_request Ref.here Ref.here c)

  pub confirm-IsHandled :
      (mode : Mode) (topic : Topic) (more : List ℕ) (rest : List Arrival) (c : Conn)
      → IsFluent tag clock c
      → c.cli.inc_flag ≡ flag_of mode
      → c.sock.inbox ≡ stream (0 ∷ 6 ∷ topic_byte topic ∷ 0 ∷ more) rest
      → IsHandled mode (confirm topic) more rest c
  unfolding IsHandled handle encode_all
  confirm-IsHandled mode a_text more rest c f at e =
      step-Went tag clock c (stays mode) [] f refl (λ cli i o. i ∙ at)
        (acknowledge-Answered tag 2 0 more rest c IsConfirmable.text f.quiet f.tagged e)
  confirm-IsHandled mode an_enquiry more rest c f at e =
      step-Went tag clock c (stays mode) [] f refl (λ cli i o. i ∙ at)
        (acknowledge-Answered tag 5 0 more rest c IsConfirmable.ping f.quiet f.tagged e)
  confirm-IsHandled mode waking more rest c f at e =
      step-Went tag clock c (stays awake) [] f refl (λ cli i o. i)
        (acknowledge-Answered tag 7 0 more rest c IsConfirmable.wake f.quiet f.tagged e)
  confirm-IsHandled mode sleeping more rest c f at e =
      step-Went tag clock c (stays asleep) [] f refl (λ cli i o. i)
        (acknowledge-Answered tag 22 0 more rest c IsConfirmable.sleep f.quiet f.tagged e)
  confirm-IsHandled mode leaving more rest c f at e =
      step-Went tag clock c left [] f refl (λ cli i o. (i, o))
        (acknowledge-Answered tag 27 0 more rest c IsConfirmable.leave f.quiet f.tagged e)

  pub refuse-IsHandled :
      (mode : Mode) (topic : Topic) (more : List ℕ) (rest : List Arrival) (c : Conn)
      → IsFluent tag clock c
      → c.cli.inc_flag ≡ flag_of mode
      → c.sock.inbox ≡ stream (0 ∷ 21 ∷ topic_byte topic ∷ 0 ∷ more) rest
      → IsHandled mode (refuse topic) more rest c
  unfolding IsHandled handle encode_all
  refuse-IsHandled mode topic more rest c f at e =
      step-Went tag clock c (stays mode) [] f refl (λ cli i o. i ∙ at)
        (neg_acknowledge-Answered tag (topic_byte topic) 0 more rest c (topic-IsConfirmable topic)
          f.quiet f.tagged e)

  pub sleep-IsHandled :
      (mode : Mode) (more : List ℕ) (rest : List Arrival) (c : Conn)
      → IsFluent tag clock c
      → c.cli.inc_flag ≡ flag_of mode
      → c.sock.inbox ≡ stream (0 ∷ 22 ∷ 0 ∷ 0 ∷ more) rest
      → IsHandled mode sleep more rest c
  unfolding IsHandled handle encode_all encode
  sleep-IsHandled awake more rest c f at e =
      let run = idle-Answered tag more rest c f.quiet f.tagged e in
      let granted : (c.cli.inc_flag == 0) ≡ true = rw at refl in
      step-Went tag clock c (stays asleep) (confirm sleeping ∷ []) f refl (λ cli i o. i)
        (rw granted at run)
  sleep-IsHandled asleep more rest c f at e =
      let run = idle-Answered tag more rest c f.quiet f.tagged e in
      let refused : (c.cli.inc_flag == 0) ≡ false = rw at refl in
      step-Went tag clock c (stays asleep) (refuse sleeping ∷ []) f refl (λ cli i o. i ∙ at)
        (rw refused at run)

  pub wake-IsHandled :
      (mode : Mode) (more : List ℕ) (rest : List Arrival) (c : Conn)
      → IsFluent tag clock c
      → c.cli.inc_flag ≡ flag_of mode
      → c.sock.inbox ≡ stream (0 ∷ 7 ∷ 0 ∷ 0 ∷ more) rest
      → IsHandled mode wake more rest c
  unfolding IsHandled handle encode_all encode
  wake-IsHandled awake more rest c f at e =
      let run = wakeup-Answered tag more rest c f.quiet f.tagged e in
      let refused : (c.cli.inc_flag == 22) ≡ false = rw at refl in
      step-Went tag clock c (stays awake) (refuse waking ∷ []) f refl (λ cli i o. i ∙ at)
        (rw refused at run)
  wake-IsHandled asleep more rest c f at e =
      let run = wakeup-Answered tag more rest c f.quiet f.tagged e in
      let granted : (c.cli.inc_flag == 22) ≡ true = rw at refl in
      step-Went tag clock c (stays awake) (confirm waking ∷ []) f refl (λ cli i o. i)
        (rw granted at run)
