-- ===== src/Manage/Request/Ended.antt =====
-- A request from a peer that has closed its end.
use chopserver.Base.{◌+◌, ◌≡◌, refl, neg, List, [], ◌∷◌}
use chopserver.Structs.{Ref}
use chopserver.Env.{malloc-ok, free}
use chopserver.Memory.{init_packet_struct, destroy_packet_struct, free_segments}
use chopserver.Machine.{
  Arrival, bytes, Io, Conn, ok, read_socket, receive_from, unless_neg, set_client, in_sock, ◌>>=◌,
}
use chopserver.Data.Transfer.{mark_closed, take_header, read_header}
use chopserver.Packet.Sending.{destroy}
use chopserver.Manage.Request.{receive, receive_packet, process_request}

-- Nothing is left, or the next read brings no bytes, after which `later` is left.
pub data HasEnded : (inbox later : List Arrival) → Type 0 where
  over : HasEnded [] []
  empty : {rest : List Arrival} → HasEnded (bytes [] ∷ rest) rest

-- What is left of the connection: nothing was sent or printed, and the packet's one block was given
-- back.
abbrev pub hung_up : Conn → List Arrival → Conn
hung_up c later = record c {
  cli = record c.cli { inc_flag = 24; out_flag = 24 };
  sock = record c.sock { inbox = later };
  pack = record {
    head = 255;
    status = 255;
    control1 = 255;
    control2 = 255;
    data_section = [];
    datalen = 0;
  };
  env = record c.env { allocated = c.env.allocated + 1; freed = c.env.freed + 1 };
}

read_header-ended :
    (later : List Arrival) (c : Conn)
    → HasEnded c.sock.inbox later
    → read_header Ref.here Ref.here c
      ≡ ok (neg 1) (record c {
        cli = record c.cli { inc_flag = 24; out_flag = 24 };
        sock = record c.sock { inbox = later };
      })
unfolding read_header in_sock read_socket take_header mark_closed set_client ◌>>=◌
read_header-ended later c ended = rw (received c.sock.inbox later ended) refl
  where
    received :
        (inbox later : List Arrival)
        → HasEnded inbox later
        → receive_from 4 inbox ≡ (Io.done [], later)
    received inbox later over = unfold receive_from in refl
    received inbox later empty = unfold receive_from in refl

-- Where memory is to be had, `process_request` on a stream that has ended returns -1 and marks the
-- client, in both flags, as to be closed; nothing is sent or printed, and the packet's memory is
-- given back.
pub process_request-ended :
    (later : List Arrival) (c : Conn)
    → c.env.mallocs ≡ []
    → HasEnded c.sock.inbox later
    → process_request Ref.here Ref.here c ≡ ok (neg 1) (hung_up c later)
unfolding process_request receive_packet receive init_packet_struct destroy destroy_packet_struct
    free_segments free unless_neg ◌>>=◌
process_request-ended later c m ended =
    let c' : Conn = record (hung_up c c.sock.inbox) {
      cli = c.cli;
      env = record c.env { allocated = c.env.allocated + 1 };
    } in
    rw (malloc-ok c.env m) (rw (read_header-ended later c' ended) refl)
