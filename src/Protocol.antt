-- ===== src/Protocol.antt =====
-- What the two ends of a connection say to each other: the packets as messages, and how an end
-- that is awake or asleep answers them. src/choppacket.c and src/chopconn.c are compared with it.
pub mod Ends
pub mod Modes
pub mod Handling
pub mod Talking
pub mod Looping
pub mod Starting
pub mod Typing
use chopserver.Base.{ℕ, ◌*◌, ◌<◌, ◌≡◌, List, [], ◌∷◌, ◌++◌, length}
use chopserver.Packet.Sending.{word_bytes}

-- What a confirmation or a refusal is about.
pub data Topic : Type 0 where
  a_text an_enquiry waking sleeping leaving : Topic

pub data Message : Type 0 where
  nothing : Message
  text : (count width : ℕ) → List ℕ → Message
  enquire enquire_back ask_time : Message
  tell_time : (now : ℕ) → Message
  sleep wake leave : Message
  confirm refuse : Topic → Message

abbrev pub topic_byte : Topic → ℕ
topic_byte a_text = 2
topic_byte an_enquiry = 5
topic_byte waking = 7
topic_byte sleeping = 22
topic_byte leaving = 27

unfoldable pub encode : Message → List ℕ
encode nothing = 0 ∷ 0 ∷ 0 ∷ 0 ∷ []
encode (text count width body) = 0 ∷ 2 ∷ count ∷ width ∷ body
encode enquire = 0 ∷ 5 ∷ 0 ∷ 0 ∷ []
encode enquire_back = 0 ∷ 5 ∷ 1 ∷ 0 ∷ []
encode ask_time = 0 ∷ 5 ∷ 3 ∷ 0 ∷ []
encode (tell_time now) = 0 ∷ 5 ∷ 2 ∷ 8 ∷ word_bytes 8 now
encode sleep = 0 ∷ 22 ∷ 0 ∷ 0 ∷ []
encode wake = 0 ∷ 7 ∷ 0 ∷ 0 ∷ []
encode leave = 0 ∷ 27 ∷ 0 ∷ 0 ∷ []
encode (confirm topic) = 0 ∷ 6 ∷ topic_byte topic ∷ 0 ∷ []
encode (refuse topic) = 0 ∷ 21 ∷ topic_byte topic ∷ 0 ∷ []

unfoldable pub encode_all : List Message → List ℕ
unfolding encode
encode_all [] = []
encode_all (m ∷ ms) = encode m ++ encode_all ms

-- A text is not empty, and its two control bytes give its length.
abbrev pub IsProper : Message → Type 0
IsProper (text count width body) = (0 < length body) × (count * width ≡ length body)
IsProper m = Unit

abbrev pub AllProper : List Message → Type 0
AllProper [] = Unit
AllProper (m ∷ ms) = IsProper m × AllProper ms

pub data Mode : Type 0 where
  awake asleep : Mode

-- An end that takes part in the conversation, or has left it.
pub data Stance : Type 0 where
  stays : Mode → Stance
  left : Stance

-- What a message makes of an end, and what the end answers.
unfoldable pub handle : (clock : ℕ) → Mode → Message → Stance × List Message
handle clock mode nothing = (stays mode, [])
handle clock mode (text count width body) = (stays mode, confirm a_text ∷ [])
handle clock mode enquire = (stays mode, confirm an_enquiry ∷ [])
handle clock mode enquire_back = (stays mode, enquire ∷ [])
handle clock mode ask_time = (stays mode, tell_time clock ∷ [])
handle clock mode (tell_time now) = (stays mode, confirm an_enquiry ∷ [])
handle clock awake sleep = (stays asleep, confirm sleeping ∷ [])
handle clock asleep sleep = (stays asleep, refuse sleeping ∷ [])
handle clock awake wake = (stays awake, refuse waking ∷ [])
handle clock asleep wake = (stays awake, confirm waking ∷ [])
handle clock mode leave = (left, confirm leaving ∷ [])
handle clock mode (confirm a_text) = (stays mode, [])
handle clock mode (confirm an_enquiry) = (stays mode, [])
handle clock mode (confirm waking) = (stays awake, [])
handle clock mode (confirm sleeping) = (stays asleep, [])
handle clock mode (confirm leaving) = (left, [])
handle clock mode (refuse topic) = (stays mode, [])

-- How a conversation went: where it leaves the end, what was answered, and what was not taken.
pub record Course : Type 0 where
  pub stance : Stance
  pub answers : List Message
  pub untaken : List Message

-- An answer, before what is answered later.
abbrev pub preceded : List Message → Course → Course
preceded answers course = record course { answers = answers ++ course.answers }

-- The messages in turn, until the end has left. `rest` says how it goes on in a mode.
unfoldable pub go_on : Stance × List Message → List Message → (Mode → Course) → Course
go_on (stays mode, answers) ms rest = preceded answers (rest mode)
go_on (left, answers) ms rest = record { stance = left; answers = answers; untaken = ms }

unfoldable pub converse : (clock : ℕ) → Mode → List Message → Course
unfolding handle go_on
converse clock mode [] = record { stance = stays mode; answers = []; untaken = [] }
converse clock mode (m ∷ ms) = go_on (handle clock mode m) ms λ mode'. converse clock mode' ms
