-- ===== src/Tests/Typings.antt =====
-- A client that types, and the server that answers it.
use chopserver.Base.{◌≡◌, refl, [], ◌∷◌, ◌++◌, some, pos, arith, replicate, true, false}
use chopserver.Structs.{Client}
use chopserver.Machine.{done, ok, Conn}
use chopserver.Console.{client_turn, selects, again, sleep_word}
use chopserver.Console.Commands.{IsCommand}
use chopserver.Protocol.{sleep, awake}
use chopserver.Protocol.Typing.{IsPresent, typed, Typed, client_turn-Typed}
use chopserver.Serve.{fd_isset}
use chopserver.Tests.Peers.{peer, receiving}
use chopserver.Tests.Servers.{second_host}

abbrev typist : Conn
typist = record (receiving []) { cli = record peer { window = 255 } }

abbrev sitting : Client
sitting = record peer { socket_fd = pos 7; window = 255 }

waited_for : fd_isset (pos 7) (pos 7 ∷ []) ≡ true
unfolding fd_isset
waited_for = refl

sitting-IsPresent : IsPresent 0 awake 0 sitting (pos 7 ∷ []) second_host
sitting-IsPresent = record {
  at = refl;
  open_fd = refl;
  ready = waited_for;
  fluent = record {
    quiet = record { memory = refl; writes = refl };
    tagged = refl;
    window = omega arith;
    ticks = refl;
  };
  flag = refl;
}

client_turn-Typed_example :
    (client_turn (selects false (some (done (sleep_word ++ 10 ∷ []), replicate 127 b'x'))) typist
      ≡ ok again (typed 22 0 typist))
    × Typed 1000 0 awake awake sleep 0 sitting (pos 7 ∷ []) second_host typist (typed 22 0 typist)
client_turn-Typed_example =
    client_turn-Typed IsCommand.sleep 1000 0 awake awake (replicate 127 b'x') typist 0 sitting
      (pos 7 ∷ []) second_host
      (record {
        quiet = record { memory = refl; writes = refl };
        tagged = refl;
        window = omega arith;
        ticks = refl;
      })
      refl sitting-IsPresent
