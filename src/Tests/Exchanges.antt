-- ===== src/Tests/Exchanges.antt =====
-- Exchanges between a client and the server.

use chopserver.Base.{
  ℕ, ◌*◌, ◌≡◌, refl, pos, List, [], ◌∷◌, some, arith, take, true, if◌then◌else◌, ◌==◌,
}
use chopserver.Structs.{Ref, cancel}
use chopserver.Machine.{Arrival, bytes, Conn}
use chopserver.Machine.Leads.{Returns}
use chopserver.Data.Transfer.Rounds.{stream}
use chopserver.Packet.Sending.{write_dataless, write_datapack}
use chopserver.Packet.Receiving.Exact.{with_inc_flag}
use chopserver.Manage.Request.{process_request, is_client_status}
use chopserver.Manage.Request.Texts.{TextTaken, process_request-text}
use chopserver.Manage.Request.Exchange.{
  deliver_as, header_first, exchange_as, exchange, AreReady, exchange-idle, exchange-wakeup,
  exchange-escape, exchange-text,
}
use chopserver.Tests.Peers.{receiving, receiving-IsQuiet}

abbrev client : Conn
client = receiving []

abbrev server : Conn
server = record client { env = record client.env { header_type = 0 } }

are-AreReady : AreReady "[SERVER %d]" "[CLIENT %d]" client server
are-AreReady = record {
  quiet_a = receiving-IsQuiet [];
  quiet_b = record { memory = refl; writes = refl };
  tag_a = refl;
  tag_b = refl;
}

exchange-idle_example :
    Returns
      (λ res a'.
        (res.0 ≡ pos 0)
        × (a'.cli.inc_flag ≡ (if 0 == 0 then 22 else 0))
        × (res.1.cli.inc_flag ≡ (if 0 == 0 then 22 else 0)))
      (exchange (write_dataless Ref.here 0 22 0 0) client server)
exchange-idle_example = exchange-idle "[SERVER %d]" "[CLIENT %d]" client server are-AreReady

abbrev sleeping : Conn
sleeping = with_inc_flag server 22

exchange-wakeup_example :
    Returns
      (λ res a'.
        (res.0 ≡ pos 0)
        × (a'.cli.inc_flag ≡ (if 22 == 22 then 0 else 0))
        × (res.1.cli.inc_flag ≡ (if 22 == 22 then 0 else 22)))
      (exchange (write_dataless Ref.here 0 7 0 0) client sleeping)
exchange-wakeup_example = exchange-wakeup "[SERVER %d]" "[CLIENT %d]" client sleeping (record {
  quiet_a = receiving-IsQuiet [];
  quiet_b = record { memory = refl; writes = refl };
  tag_a = refl;
  tag_b = refl;
})

exchange-escape_example :
    Returns
      (λ res a'.
        (res.0 ≡ pos 0)
        × (is_client_status Ref.here a'.cli (pos cancel) ≡ true)
        × (is_client_status Ref.here res.1.cli (pos cancel) ≡ true))
      (exchange (write_dataless Ref.here 0 27 0 0) client server)
exchange-escape_example = exchange-escape "[SERVER %d]" "[CLIENT %d]" client server are-AreReady

abbrev hello : List ℕ
hello = b'h' ∷ b'e' ∷ b'l' ∷ b'l' ∷ b'o' ∷ []

exchange-text_example :
    Returns
      (λ res a'.
        ((res.0 ≡ pos 0) × (a'.cli.inc_flag ≡ 0))
        × TextTaken
            (deliver_as header_first (0 ∷ 2 ∷ 1 ∷ 5 ∷ take (1 * 5) hello) server)
            "[CLIENT %d]"
            (take (1 * 5) hello)
            []
            res.1)
      (exchange_as header_first
        (write_datapack Ref.here 0 2 1 5 (some hello) (pos (1 * 5)))
        client
        server)
exchange-text_example =
    exchange-text header_first "[SERVER %d]" "[CLIENT %d]" 1 5 hello client server are-AreReady
      (omega arith) (omega arith) (omega arith)

abbrev text_and_more : List Arrival
text_and_more = bytes (0 ∷ 2 ∷ 1 ∷ 3 ∷ b'a' ∷ b'b' ∷ b'c' ∷ 0 ∷ 22 ∷ []) ∷ []

text_first : text_and_more ≡ stream (0 ∷ 2 ∷ 1 ∷ 3 ∷ b'a' ∷ b'b' ∷ b'c' ∷ 0 ∷ 22 ∷ []) []
unfolding stream
text_first = refl

process_request-text_example :
    Returns
      (λ r c'.
        (r ≡ pos 0)
        × TextTaken
            (receiving text_and_more)
            "[SERVER %d]"
            (b'a' ∷ b'b' ∷ b'c' ∷ [])
            (stream (0 ∷ 22 ∷ []) [])
            c')
      (process_request Ref.here Ref.here (receiving text_and_more))
process_request-text_example =
    process_request-text "[SERVER %d]" 1 3 (b'a' ∷ b'b' ∷ b'c' ∷ []) (0 ∷ 22 ∷ []) []
      (receiving text_and_more) (receiving-IsQuiet text_and_more) refl (omega arith) (omega arith)
      refl text_first
