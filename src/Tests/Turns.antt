-- ===== src/Tests/Turns.antt =====
-- A turn in which two clients speak.
use chopserver.Base.{
  ℕ, zero, suc, ◌<◌, ◌≡◌, ◌++◌, refl, ℤ, pos, Bool, true, List, [], ◌∷◌, Option, none, some,
  get_elem?, not, arith,
}
use chopserver.Structs.{Client}
use chopserver.Env.{plain, with_int, print}
use chopserver.Machine.{done, failed}
use chopserver.Memory.{init_client_struct}
use chopserver.Env.{malloc}
use chopserver.Manage.Clients.{accept_new_client}
use chopserver.Data.Transfer.Rounds.{stream}
use chopserver.Protocol.{encode, sleep, leave, awake}
use chopserver.Serve.{Host, goes, selects, turn, with_socket, same_fd, fd_isset, ready_of}
use chopserver.Serve.Sound.{IsServing}
use chopserver.Serve.Turns.{Reachable-IsServing, started, turned}
use chopserver.Serve.Passing.{IsPassed, vacant}
use chopserver.Serve.Heard.{Speech, Heard, Distinct}
use chopserver.Serve.Each.{Each, turn-Each}
use chopserver.Tests.Peers.{peer}
use chopserver.Tests.Servers.{before, first_started, silent, second_host, second_turned}
use chopserver.Tests.Sockets.{seated, none_seated}
use chopserver.Manage.Clients.{seat}

-- A second client comes.
abbrev third_host : Host
third_host = record {
  server = seat peer 1 9 255 second_host.server;
  sockets = with_socket (pos 9) silent second_host.sockets;
  all_fds = pos 9 ∷ pos 7 ∷ pos 3 ∷ [];
  max_fd = pos 9;
  env = record second_host.env {
    allocated = 4;
    shown =
        second_host.env.shown ++ (plain "\n" ∷ with_int "[CLIENT %d] Connected.\n" (pos 9) ∷ []);
  };
}

abbrev ready_3 : ℤ → Bool
ready_3 fd = same_fd fd (pos 3)

third_turned : turn (selects ready_3 (done (9, silent))) second_host ≡ goes third_host
unfolding turn accept_new_client init_client_struct malloc print fd_isset
third_turned = refl

abbrev leaves : Speech
leaves = record { mode = awake; message = leave; more = 0 ∷ 5 ∷ []; rest = [] }

abbrev sleeps : Speech
sleeps = record { mode = awake; message = sleep; more = []; rest = [] }

abbrev said : ℕ → Option Speech
said zero = some leaves
said (suc zero) = some sleeps
said (suc (suc j)) = none

-- Both have something to say.
abbrev asking : Host
asking = record third_host {
  sockets =
      with_socket (pos 7) (record silent { inbox = stream (encode leave ++ (0 ∷ 5 ∷ [])) [] })
        (with_socket (pos 9) (record silent { inbox = stream (encode sleep ++ []) [] })
          third_host.sockets);
}

asking-IsServing : IsServing (pos 3) 20 asking
asking-IsServing =
    let serving = Reachable-IsServing (pos 3) before third_host (
      turned (selects ready_3 (done (9, silent)))
        (turned (selects (λ fd. true) (done (7, silent))) (started first_started) second_turned)
        third_turned) in
    record {
      sound = serving.sound;
      same_fd = serving.same_fd;
      same_max = serving.same_max;
      bounded = serving.bounded;
    }

abbrev second_seated : Client
second_seated = record peer { socket_fd = pos 9; window = 255 }

asking-Distinct : Distinct asking
asking-Distinct zero zero c d ne at_c at_d = absurd (ground arith)
asking-Distinct zero (suc zero) c d ne at_c at_d =
    let (e, k) : (seated ≡ c) × (second_seated ≡ d) = (cc, cc) in rw (← e, ← k) refl
asking-Distinct (suc zero) zero c d ne at_c at_d =
    let (e, k) : (second_seated ≡ c) × (seated ≡ d) = (cc, cc) in rw (← e, ← k) refl
asking-Distinct (suc zero) (suc zero) c d ne at_c at_d = absurd (ground arith)
asking-Distinct (suc (suc j)) k c d ne at_c at_d = absurd (none_seated 18 j c at_c)
asking-Distinct zero (suc (suc k)) c d ne at_c at_d = absurd (none_seated 18 k d at_d)
asking-Distinct (suc zero) (suc (suc k)) c d ne at_c at_d = absurd (none_seated 18 k d at_d)

abbrev ready_clients : ℤ → Bool
ready_clients fd = not (same_fd fd (pos 3))

unseated-IsPassed :
    (fds : List ℤ) (j : ℕ) (slot : Option Client)
    → get_elem? asking.server.clients (suc (suc j)) ≡ some slot
    → IsPassed fds slot
unseated-IsPassed fds j none at = vacant
unseated-IsPassed fds j (some c) at = absurd (none_seated 18 j c at)

asking-Heard : (j : ℕ) → j < 20 → Heard (ready_of ready_clients asking.all_fds) (said j) j asking
unfolding fd_isset ready_of
asking-Heard zero below = (
  seated,
  record {
    at = refl;
    open_fd = refl;
    chosen = refl;
    window = omega arith;
    flag = refl;
    proper = tt;
    writes = refl;
    arrived = refl;
  },
)
asking-Heard (suc zero) below = (
  second_seated,
  record {
    at = refl;
    open_fd = refl;
    chosen = refl;
    window = omega arith;
    flag = refl;
    proper = tt;
    writes = refl;
    arrived = refl;
  },
)
asking-Heard (suc (suc j)) below = unseated-IsPassed (ready_of ready_clients asking.all_fds) j

turn-Each_example :
    (h' : Host) × (turn (selects ready_clients (failed 3)) asking ≡ goes h')
    × Each 0 said 0 asking h'
turn-Each_example =
    turn-Each "[CLIENT %d]" 0 said ready_clients (failed 3) (pos 3) 20 asking asking-IsServing refl
      (record { memory = refl; tagged = refl; ticks = refl }) asking-Distinct asking-Heard
