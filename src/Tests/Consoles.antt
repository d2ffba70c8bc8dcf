-- ===== src/Tests/Consoles.antt =====
-- Lines that are typed, addresses, and a status without a name.
use chopserver.Base.{◌≡◌, refl, inl, List, [], ◌∷◌, ◌++◌, some, arith, replicate, false}
use chopserver.Structs.{Ref}
use chopserver.Env.{plain}
use chopserver.Machine.{Arrival, bytes, done, ok, fault, names}
use chopserver.Data.Transfer.Rounds.{stream}
use chopserver.Packet.Sending.Exact.{after_call}
use chopserver.Packet.Receiving.Exact.{after_print}
use chopserver.Console.{client_turn, selects, sleep_word, again}
use chopserver.Console.Commands.{sleep, client_turn-IsCommand}
use chopserver.Manage.Address.{dot, is_address}
use chopserver.Manage.Address.Quads.{dotted, is_address-dotted}
use chopserver.Manage.Request.{process_request}
use chopserver.Manage.Request.Unnamed.{process_request-unnamed}
use chopserver.Tests.Peers.{receiving, receiving-IsQuiet}

client_turn-IsCommand_example :
    client_turn
      (selects false (some (done (sleep_word ++ 10 ∷ []), replicate 127 b'x')))
      (receiving [])
    ≡ ok again (after_call (after_print (receiving []) (plain "\n" ∷ [])) 1 (0 ∷ 22 ∷ 0 ∷ 0 ∷ []))
client_turn-IsCommand_example =
    client_turn-IsCommand (replicate 127 b'x') (receiving []) sleep (receiving-IsQuiet [])

is_address-dotted_example :
    (is_address (some (dotted (127 ∷ 0 ∷ 0 ∷ []) 256 [])) ≡ false)
    × (is_address (some (dotted (127 ∷ 0 ∷ 0 ∷ []) 256 (dot ∷ b'x' ∷ []))) ≡ false)
    × (is_address (some (dotted (127 ∷ 0 ∷ []) 0 [])) ≡ false)
    × (is_address (some (dotted (127 ∷ []) 0 [])) ≡ false)
    × (is_address (some (dotted [] 127 [])) ≡ false)
is_address-dotted_example =
    is_address-dotted 127 0 0 256 (b'x' ∷ []) (omega arith) (omega arith) (omega arith)
      (omega arith)

abbrev unnamed : List Arrival
unnamed = bytes (0 ∷ 6 ∷ 32 ∷ 0 ∷ []) ∷ []

unnamed_first : unnamed ≡ stream (0 ∷ 6 ∷ 32 ∷ 0 ∷ []) []
unfolding stream
unnamed_first = refl

process_request-unnamed_example :
    process_request Ref.here Ref.here (receiving unnamed) ≡ fault names
process_request-unnamed_example =
    process_request-unnamed 6 0 [] [] (receiving unnamed) refl (inl refl) unnamed_first
