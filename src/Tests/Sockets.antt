-- ===== src/Tests/Sockets.antt =====
-- Sockets that are opened, and peers that hang up.
use chopserver.Base.{
  ℕ, zero, suc, Option, none, replicate, get_elem?, ◌≡◌, refl, pos, neg, [], ◌∷◌, ◌++◌, some, arith,
  true,
}
use chopserver.Structs.{Ref}
use chopserver.Machine.{bytes, done, failed, ok}
use chopserver.Manage.Request.{process_request}
use chopserver.Manage.Request.Ended.{over, empty, hung_up, process_request-ended}
use chopserver.Sockets.{SockAddr, Kernel, setup_server_socket, connect_to_server}
use chopserver.Sockets.Outcomes.{
  IsSetUp, setup_server_socket-IsSetUp, IsConnected, connect_to_server-IsConnected,
}
use chopserver.Serve.{Host, goes, selects, serve_slot, with_socket, turn, fd_isset, connection}
use chopserver.Protocol.Ends.{IsFluent}
use chopserver.Serve.Sound.{IsServing}
use chopserver.Serve.Calm.{IsSheltered, Calm}
use chopserver.Serve.Welcoming.{IsUndefined}
use chopserver.Serve.Safe.{begins, turns, turn-IsServing}
use chopserver.Structs.{Client}
use chopserver.Data.Transfer.Rounds.{stream}
use chopserver.Protocol.{encode, leave, left, confirm, leaving, awake, handle}
use chopserver.Serve.Talking.{Served, serve_slot-handle}
use chopserver.Serve.Leaving.{LetGo, serve_slot-LetGo}
use chopserver.Tests.Peers.{peer, receiving}
use chopserver.Tests.Servers.{first_host, before, first_started, silent, second_host, second_turned}

abbrev blank : SockAddr
blank = record { sin_family = 0; sin_port = []; sin_addr = []; sin_zero = [] }

-- The port is taken.
abbrev busy : Kernel
busy = record {
  socket_call = done 3;
  setsockopt_call = done tt;
  bind_call = failed 97;
  listen_call = done tt;
  gethostbyname_call = λ name. failed 0;
  connect_call = done tt;
}

setup_server_socket-IsSetUp_example :
    IsSetUp busy (pos 50001) (pos 5) (setup_server_socket Ref.here blank (pos 50001) (pos 5) busy)
setup_server_socket-IsSetUp_example = setup_server_socket-IsSetUp blank 50001 4 busy

connect_to_server-IsConnected_example :
    IsConnected
      (done 3)
      (failed 0)
      (done tt)
      (pos 50001)
      (connect_to_server Ref.here blank (some "localhost") (pos 50001) busy)
connect_to_server-IsConnected_example = connect_to_server-IsConnected blank "localhost" 50001 busy

process_request-ended_example :
    process_request Ref.here Ref.here (receiving (bytes [] ∷ []))
    ≡ ok (neg 1) (hung_up (receiving (bytes [] ∷ [])) [])
process_request-ended_example = process_request-ended [] (receiving (bytes [] ∷ [])) refl empty

turn-IsServing_example :
    Calm
      (IsUndefined 1 (selects (λ fd. true) (failed 3)))
      (λ h'. IsServing (pos 3) 20 h' × IsSheltered 1000 2 h')
      (turn (selects (λ fd. true) (failed 3)) second_host)
turn-IsServing_example =
    turn-IsServing 1000 (omega arith) (pos 3) before (selects (λ fd. true) (failed 3)) second_host
      (turns (selects (λ fd. true) (done (7, silent))) (begins first_started) (omega arith)
        second_turned)
      tt

listened : fd_isset (pos 7) (pos 7 ∷ []) ≡ true
unfolding fd_isset
listened = refl

serve_slot-LetGo_example :
    (h' : Host) × (serve_slot
        (some (some (record peer { socket_fd = pos 7; window = 255 })))
        0
        (pos 7 ∷ [])
        second_host
      ≡ goes h')
    × LetGo 0 (pos 7) second_host h'
serve_slot-LetGo_example =
    serve_slot-LetGo 0 (record peer { socket_fd = pos 7; window = 255 }) (pos 7 ∷ []) [] second_host
      refl refl listened over refl

abbrev pub seated : Client
seated = record peer { socket_fd = pos 7; window = 255 }

abbrev asking_host : Host
asking_host = record second_host {
  sockets =
      with_socket (pos 7) (record silent { inbox = stream (encode leave ++ (0 ∷ 5 ∷ [])) [] })
        first_host.sockets;
}

asking_host-IsFluent : IsFluent "[CLIENT %d]" 0 (connection seated asking_host)
asking_host-IsFluent = record {
  quiet = record { memory = refl; writes = refl };
  tagged = refl;
  window = omega arith;
  ticks = refl;
}

serve_slot-handle_example :
    (h' : Host) × (serve_slot (some (some seated)) 0 (pos 7 ∷ []) asking_host ≡ goes h')
    × Served left (confirm leaving ∷ []) (stream (0 ∷ 5 ∷ []) []) 0 seated asking_host h'
unfolding handle
serve_slot-handle_example =
    serve_slot-handle "[CLIENT %d]" 0 awake leave (0 ∷ 5 ∷ []) [] 0 seated (pos 7 ∷ []) asking_host
      refl refl listened asking_host-IsFluent refl tt refl

pub none_seated :
    (n j : ℕ) (c : Client) → get_elem? (replicate {A = Option Client} n none) j ≡ some (some c) → ⊥
none_seated zero j c e = cc
none_seated (suc n) zero c e = cc
none_seated (suc n) (suc j) c e = none_seated n j c e
