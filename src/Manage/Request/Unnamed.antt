-- ===== src/Manage/Request/Unnamed.antt =====
-- A confirmation or refusal of a status that the table of names just misses.
use native.Mathlib.Numerals.{add-one}
use chopserver.Base.{ℕ, ◌+◌, ◌≡◌, refl, inl, inr, ◌⊎◌, List, [], ◌∷◌}
use chopserver.Structs.{Ref, Packet}
use chopserver.Env.{malloc-ok}
use chopserver.Memory.{init_packet_struct}
use chopserver.Machine.{Arrival, Conn, fault, names, and_then, unless_neg, ◌>>=◌}
use chopserver.Data.Transfer.Rounds.{stream}
use chopserver.Debug.{print_acknowledge, print_neg_acknowledge, print_named, stat_to_str}
use chopserver.Packet.Receiving.{then_print, parse_header, parse_acknowledge, parse_neg_acknowledge}
use chopserver.Packet.Receiving.Exact.{read_header-ok}
use chopserver.Manage.Request.{receive, receive_packet, process_request}

-- Where memory is to be had, an ACKNOWLEDGE or NEG_ACKNOWLEDGE header with control1 = 32, which is
-- one more than the last status, makes `process_request` read outside the table of names, whatever
-- the state of the client is.
pub process_request-unnamed :
    (status control2 : ℕ) (more : List ℕ) (rest : List Arrival) (c : Conn)
    → c.env.mallocs ≡ []
    → (status ≡ 6) ⊎ (status ≡ 21)
    → c.sock.inbox ≡ stream (0 ∷ status ∷ 32 ∷ control2 ∷ more) rest
    → process_request Ref.here Ref.here c ≡ fault names
unfolding process_request receive_packet receive ◌>>=◌ and_then init_packet_struct unless_neg
    parse_header then_print parse_acknowledge parse_neg_acknowledge print_acknowledge
    print_neg_acknowledge stat_to_str print_named
process_request-unnamed status control2 more rest c m which e =
    let fresh : Packet = record {
      head = 255;
      status = 255;
      control1 = 255;
      control2 = 255;
      data_section = [];
      datalen = 0;
    } in
    let c' : Conn = record c {
      pack = fresh;
      env = record c.env { allocated = c.env.allocated + 1 };
    } in
    rw (malloc-ok c.env m) (
      rw (read_header-ok 0 status 32 control2 more rest c' e, add-one)
        (elim which [ inl ack ↦ rw ack refl | inr nak ↦ rw nak refl ]))
