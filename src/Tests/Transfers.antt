-- ===== src/Tests/Transfers.antt =====
-- Packets on their way out and in.
use chopserver.Base.{ℕ, ◌≡◌, refl, pos, List, [], ◌∷◌, ◌++◌, some, arith, length, take, true}
use chopserver.Structs.{Ref, Packet}
use chopserver.Machine.{Arrival, bytes, ok}
use chopserver.Machine.Leads.{Returns}
use chopserver.Data.Transfer.{buffers_for, header_bytes, read_data, read_header, write_packet}
use chopserver.Data.Transfer.Writing.{payload, payload_len, after_sending, write_packet-ok}
use chopserver.Data.Transfer.Rounds.{stream, filled_segment}
use chopserver.Data.Transfer.Whole.{HasRead, read_data-HasRead}
use chopserver.Packet.Sending.{write_dataless, write_datapack, word_bytes, write_wordpack}
use chopserver.Packet.Sending.Exact.{
  after_call, write_dataless-ok, write_datapack-ok, write_wordpack-ok,
}
use chopserver.Packet.Receiving.Exact.{with_header, read_header-ok}
use chopserver.Data.Scan.Lacks.{lacks}
use chopserver.Packet.Receiving.{read_long_text}
use chopserver.Packet.Receiving.Long.{HasLong, read_long_text-HasLong}
use chopserver.Tests.Peers.{receiving, receiving-IsQuiet}

abbrev hello : List ℕ
hello = b'h' ∷ b'e' ∷ b'l' ∷ b'l' ∷ b'o' ∷ []

abbrev two_segments : Packet
two_segments = record {
  head = 0;
  status = 2;
  control1 = 1;
  control2 = 3;
  data_section = filled_segment 2 (b'h' ∷ b'e' ∷ []) ∷ filled_segment 2 (b'y' ∷ []) ∷ [];
  datalen = 2;
}

write_packet-ok_example :
    write_packet Ref.here (some two_segments) (receiving [])
    ≡ ok (pos (payload_len two_segments.data_section)) (
        after_sending
          (receiving [])
          0
          (header_bytes two_segments ++ payload two_segments.data_section))
write_packet-ok_example =
    write_packet-ok two_segments (receiving []) refl (omega arith, (omega arith, tt))

write_dataless-ok_example :
    write_dataless Ref.here 0 22 0 0 (receiving [])
    ≡ ok (pos 0) (after_call (receiving []) 1 (0 ∷ 22 ∷ 0 ∷ 0 ∷ []))
write_dataless-ok_example = write_dataless-ok 0 22 0 0 (receiving []) (receiving-IsQuiet [])

write_datapack-ok_example :
    write_datapack Ref.here 0 2 1 4 (some hello) (pos 4) (receiving [])
    ≡ ok (pos 0) (after_call (receiving []) 3 (0 ∷ 2 ∷ 1 ∷ 4 ∷ take 4 hello))
write_datapack-ok_example =
    write_datapack-ok 0 2 1 4 4 hello (receiving []) (omega arith) (omega arith)
      (receiving-IsQuiet [])

write_wordpack-ok_example :
    write_wordpack Ref.here 0 5 2 8 1000 (receiving [])
    ≡ ok (pos 0) (after_call (receiving []) 3 (0 ∷ 5 ∷ 2 ∷ 8 ∷ word_bytes 8 1000))
write_wordpack-ok_example = write_wordpack-ok 0 5 2 8 1000 (receiving []) (receiving-IsQuiet [])

abbrev header_and_text : List Arrival
header_and_text = bytes (0 ∷ 2 ∷ 1 ∷ 5 ∷ hello) ∷ []

header_first : header_and_text ≡ stream (0 ∷ 2 ∷ 1 ∷ 5 ∷ hello) []
unfolding stream
header_first = refl

read_header-ok_example :
    read_header Ref.here Ref.here (receiving header_and_text)
    ≡ ok (pos 0) (with_header (receiving header_and_text) 0 2 1 5 (stream hello []))
read_header-ok_example = read_header-ok 0 2 1 5 hello [] (receiving header_and_text) header_first

text_first : bytes (hello ++ 0 ∷ 22 ∷ []) ∷ [] ≡ stream (hello ++ 0 ∷ 22 ∷ []) []
unfolding stream
text_first = refl

read_data-HasRead_example :
    Returns
      (λ r c'.
        (r ≡ pos (length hello))
        × HasRead
            (receiving (bytes (hello ++ 0 ∷ 22 ∷ []) ∷ []))
            hello
            (buffers_for (length hello) 2)
            (stream (0 ∷ 22 ∷ []) [])
            c')
      (read_data Ref.here Ref.here
        (pos (length hello))
        (receiving (bytes (hello ++ 0 ∷ 22 ∷ []) ∷ [])))
read_data-HasRead_example =
    read_data-HasRead hello (0 ∷ 22 ∷ []) [] (receiving (bytes (hello ++ 0 ∷ 22 ∷ []) ∷ [])) refl
      (omega arith) (omega arith) text_first

-- A text of unknown length that takes three reads, with two bytes of the next packet behind it.
abbrev long_text : List Arrival
long_text = bytes (hello ++ 3 ∷ 0 ∷ 22 ∷ []) ∷ []

long_text_first : long_text ≡ stream (hello ++ 3 ∷ 0 ∷ 22 ∷ []) []
unfolding stream
long_text_first = refl

hello-lacks : lacks 3 hello ≡ true
unfolding lacks
hello-lacks = refl

read_long_text-HasLong_example :
    Returns
      (HasLong (receiving long_text) hello)
      (read_long_text Ref.here Ref.here (receiving long_text))
read_long_text-HasLong_example =
    read_long_text-HasLong hello (0 ∷ 22 ∷ []) [] (receiving long_text) refl (omega arith)
      hello-lacks (omega arith) long_text_first
