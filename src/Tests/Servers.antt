-- ===== src/Tests/Servers.antt =====
-- The server takes a connection and gives it up.
use chopserver.Base.{◌+◌, ◌≡◌, refl, pos, [], ◌∷◌, ◌++◌, arith, some, none, true, replicate}
use chopserver.Structs.{Ref, Server}
use chopserver.Env.{Env, plain, with_int, malloc, print}
use chopserver.Memory.{init_server_struct, init_client_struct}
use chopserver.Machine.{done, Socket}
use chopserver.Manage.Clients.{seat, accept_new_client, remove_client_index}
use chopserver.Manage.Clients.Accepting.{remove_client_index-seat}
use chopserver.Memory.{destroy_server_struct}
use chopserver.Memory.Destroying.{open_fd, open_fds, destroy_server_struct-ok}
use chopserver.Manage.Clients.Slots.{occupied}
use chopserver.Serve.{Host, goes, selects, turn, start, with_socket, fd_isset}
use chopserver.Serve.Sound.{IsServing}
use chopserver.Serve.Turns.{started, turned, Reachable-IsServing}
use chopserver.Tests.Peers.{peer}

abbrev pub before : Env
before = record {
  mallocs = [];
  allocated = 0;
  freed = 0;
  closed = [];
  clock = 0;
  header_type = 0;
  shown = [];
}

abbrev listener : Server
listener = record {
  server_fd = pos 3;
  server_port = pos 50001;
  clients = replicate 20 none;
  max_connections = 20;
  cur_connections = 0;
  connect_queue = pos 5;
}

abbrev pub first_host : Host
first_host = record {
  server = listener;
  sockets = λ fd. record { inbox = []; accepts = []; sent = [] };
  all_fds = pos 3 ∷ [];
  max_fd = pos 3;
  env = record before { allocated = 2 };
}

pub first_started : start (pos 3) before ≡ goes first_host
unfolding start init_server_struct malloc
first_started = refl

remove_client_index-seat_example :
    remove_client_index (pos 0) Ref.here (seat peer 0 7 255 listener) before
    ≡ some (
      pos 0,
      record listener { cur_connections = 0 + 1 },
      record before { closed = [] ++ pos 7 ∷ []; freed = 0 + 1 },
    )
remove_client_index-seat_example =
    remove_client_index-seat 0 7 255 peer listener before refl (omega arith)

abbrev pub silent : Socket
silent = record { inbox = []; accepts = []; sent = [] }

abbrev pub second_host : Host
second_host = record {
  server = seat peer 0 7 255 listener;
  sockets = with_socket (pos 7) silent first_host.sockets;
  all_fds = pos 7 ∷ pos 3 ∷ [];
  max_fd = pos 7;
  env = record before {
    allocated = 3;
    shown = plain "\n" ∷ with_int "[CLIENT %d] Connected.\n" (pos 7) ∷ [];
  };
}

pub second_turned : turn (selects (λ fd. true) (done (7, silent))) first_host ≡ goes second_host
unfolding turn accept_new_client init_client_struct malloc print fd_isset
second_turned = refl

Reachable-IsServing_example : IsServing (pos 3) 20 second_host
Reachable-IsServing_example =
    Reachable-IsServing (pos 3) before second_host
      (turned (selects (λ fd. true) (done (7, silent))) (started first_started) second_turned)

destroy_server_struct-ok_example :
    destroy_server_struct Ref.here (some (seat peer 0 7 255 listener)) before ≡ (
      pos 0,
      none,
      record before {
        closed = [] ++ (open_fd (pos 3) ++ open_fds (seat peer 0 7 255 listener).clients);
        freed = 0 + occupied (seat peer 0 7 255 listener).clients + 2;
      },
    )
destroy_server_struct-ok_example = destroy_server_struct-ok (seat peer 0 7 255 listener) before
