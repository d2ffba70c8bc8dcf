-- ===== src/Debug/Names.antt =====
-- src/chopdebug.h and src/chopdebug.c: the formats of the messages, the tables of names, and the
-- functions that look a name up.
use Prim.Native.String.{String}
use chopserver.Base.{
  ℕ, ℤ, pos, ltb, List, [], ◌∷◌, Bool, Option, none, some, get_elem?, if◌then◌else◌,
}

abbrev pub recv_text_start : String
recv_text_start = ": \""

abbrev pub recv_text_seg : String
recv_text_seg = "%.*s"

abbrev pub recv_text_end : String
recv_text_end = "\"\n"

abbrev pub recv_ping_norm : String
recv_ping_norm = " ENQUIRY\n"

abbrev pub recv_ping_send : String
recv_ping_send = " ENQURIY Requested\n"

abbrev pub recv_ping_time : String
recv_ping_time = " Time ENQUIRY: \"%ld\"\n"

abbrev pub recv_ping_time_send : String
recv_ping_time_send = " Time ENQUIRY Requested\n"

abbrev pub ackn_text : String
ackn_text = " %s Confirmed\n"

abbrev pub wakeup_text : String
wakeup_text = " Requesting Wakeup\n"

abbrev pub neg_ackn_text : String
neg_ackn_text = " %s Refused\n"

abbrev pub idle_text : String
idle_text = " Requesting Idle\n"

abbrev pub esc_text : String
esc_text = " Requesting Disconnect\n"

abbrev pub packet_id : List String
packet_id = "PACKET_HEAD" ∷ "PACKET_STATUS" ∷ "PACKET_CONTROL1" ∷ "PACKET_CONTROL2" ∷ []

abbrev pub status_str : List String
status_str =
    "NULL_BYTE" ∷ "START_HEADER" ∷ "START_TEXT" ∷ "END_TEXT" ∷ "END_TRANSMISSION" ∷ "ENQURIY"
    ∷ "ACKNOWLEDGE" ∷ "WAKEUP" ∷ "8" ∷ "9" ∷ "10" ∷ "11" ∷ "12" ∷ "13" ∷ "SHIFT_OUT" ∷ "SHIFT_IN"
    ∷ "START_DATA" ∷ "CONTROL_ONE" ∷ "CONTROL_TWO" ∷ "CONTROL_THREE" ∷ "CONTROL_FOUR"
    ∷ "NEG_ACKNOWLEDGE" ∷ "IDLE" ∷ "END_TRANSMISSION_BLOCK" ∷ "CANCEL" ∷ "END_OF_MEDIUM"
    ∷ "SUBSTITUTE" ∷ "ESCAPE" ∷ "FILE_SEPARATOR" ∷ "GROUP_SEPARATOR" ∷ "RECORD_SEPARATOR"
    ∷ "UNIT_SEPARATOR" ∷ []

abbrev pub enquiry_str : List String
enquiry_str = "ENQUIRY_NORMAL" ∷ "ENQUIRY_RETURN" ∷ "ENQUIRY_TIME" ∷ "ENQUIRY_RTIME" ∷ []

abbrev pub all_headers : List String
all_headers = "[CLIENT %d]" ∷ "[SERVER %d]" ∷ []

-- The result of reading a table: the name, NULL, or a read outside the table.
pub data Name : Type 0 where
  named : String → Name
  no_name : Name
  outside : Name

abbrev pub name_of : Option String → Name
name_of none = outside
name_of (some s) = named s

-- A byte from 128 on is a negative `char`.
abbrev pub is_negative_char : ℕ → Bool
is_negative_char b = ltb 127 b

unfoldable pub stat_to_str : (byte : ℕ) → Name
stat_to_str byte =
    if is_negative_char byte
    then no_name
    else if ltb 32 byte
    then no_name
    else name_of (get_elem? status_str byte)

unfoldable pub enq_cont_to_str : (byte : ℕ) → Name
enq_cont_to_str byte =
    if is_negative_char byte
    then no_name
    else if ltb 4 byte
    then no_name
    else name_of (get_elem? enquiry_str byte)

unfoldable pub pack_id_to_str : ℤ → Name
pack_id_to_str (ℤ.negsuc n) = no_name
pack_id_to_str (pos id) = if ltb 4 id then no_name else name_of (get_elem? packet_id id)
