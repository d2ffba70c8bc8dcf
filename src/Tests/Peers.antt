-- ===== src/Tests/Peers.antt =====
-- A client of the server, with a window of two bytes, and what it may send.
use chopserver.Base.{pos, List, [], ◌∷◌, refl}
use chopserver.Structs.{Client, Packet}
use chopserver.Env.{Env}
use chopserver.Machine.{Arrival, bytes, Conn}
use chopserver.Packet.Sending.Exact.{IsQuiet}

abbrev pub peer : Client
peer = record { socket_fd = pos 5; server_fd = pos 3; inc_flag = 0; out_flag = 0; window = 2 }

abbrev empty_packet : Packet
empty_packet = record {
  head = 255;
  status = 255;
  control1 = 255;
  control2 = 255;
  data_section = [];
  datalen = 0;
}

abbrev process : Env
process = record {
  mallocs = [];
  allocated = 0;
  freed = 0;
  closed = [];
  clock = 1000;
  header_type = 1;
  shown = [];
}

abbrev pub receiving : List Arrival → Conn
receiving arrivals = record {
  cli = peer;
  sock = record { inbox = arrivals; accepts = []; sent = [] };
  pack = empty_packet;
  env = process;
}

abbrev pub receiving-IsQuiet : (arrivals : List Arrival) → IsQuiet (receiving arrivals)
receiving-IsQuiet arrivals = record { memory = refl; writes = refl }

-- A text of five bytes behind its header, and a request to sleep.
abbrev pub text_message : List Arrival
text_message = bytes (0 ∷ 2 ∷ 1 ∷ 5 ∷ []) ∷ bytes (b'h' ∷ b'e' ∷ b'l' ∷ b'l' ∷ b'o' ∷ []) ∷ []

abbrev pub idle_message : List Arrival
idle_message = bytes (0 ∷ 22 ∷ 0 ∷ 0 ∷ []) ∷ []
