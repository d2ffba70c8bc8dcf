-- ===== src/Structs.antt =====
-- src/chopconst.h: the status bytes, the error numbers that the code returns, and the structures.
-- `struct sockaddr_in address` of a client and a server is kept by src/chopsocket.c alone and is
-- not a field here.
use chopserver.Base.{ℕ, ℤ, List, Option, Bool, true, false}

-- A pointer argument: NULL, or the address of the object in question.
pub data Ref : Type 0 where
  null here : Ref

abbrev pub is_null : Ref → Bool
is_null null = true
is_null here = false

-- Status bytes
abbrev pub null_byte : ℕ
null_byte = 0

abbrev pub start_header : ℕ
start_header = 1

abbrev pub start_text : ℕ
start_text = 2

abbrev pub end_text : ℕ
end_text = 3

abbrev pub enquiry : ℕ
enquiry = 5

abbrev pub enquiry_normal : ℕ
enquiry_normal = 0

abbrev pub enquiry_return : ℕ
enquiry_return = 1

abbrev pub enquiry_time : ℕ
enquiry_time = 2

abbrev pub enquiry_rtime : ℕ
enquiry_rtime = 3

abbrev pub acknowledge : ℕ
acknowledge = 6

abbrev pub wakeup : ℕ
wakeup = 7

abbrev pub neg_acknowledge : ℕ
neg_acknowledge = 21

abbrev pub idle : ℕ
idle = 22

abbrev pub cancel : ℕ
cancel = 24

abbrev pub escape : ℕ
escape = 27

-- `HEADER_LEN`: four bytes.
abbrev pub header_len : ℕ
header_len = 4

-- <errno.h>
abbrev pub enoent : ℕ
enoent = 2

abbrev pub enomem : ℕ
enomem = 12

abbrev pub einval : ℕ
einval = 22

abbrev pub enospc : ℕ
enospc = 28

-- `bytes` is what has been stored from the start of `buf`; the rest of its `bufsize` bytes is
-- indeterminate. `next` is the rest of the list that the buffer stands in.
pub record Buffer : Type 0 where
  pub bytes : List ℕ
  pub inbuf : ℕ
  pub bufsize : ℕ

pub record Packet : Type 0 where
  pub head : ℕ
  pub status : ℕ
  pub control1 : ℕ
  pub control2 : ℕ
  pub data_section : List Buffer
  pub datalen : ℕ

-- `init_client_struct` refuses a `window` below 1, and nothing else assigns a negative one.
pub record Client : Type 0 where
  pub socket_fd : ℤ
  pub server_fd : ℤ
  pub inc_flag : ℕ
  pub out_flag : ℕ
  pub window : ℕ

-- `clients` has `max_connections` slots, and a slot is empty where the array holds NULL.
pub record Server : Type 0 where
  pub server_fd : ℤ
  pub server_port : ℤ
  pub clients : List (Option Client)
  pub max_connections : ℕ
  pub cur_connections : ℕ
  pub connect_queue : ℤ
