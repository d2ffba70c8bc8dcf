-- ===== src/Tests/Talks.antt =====
-- The client in a conversation, and a request that stays inside its arrays.
use chopserver.Base.{◌≡◌, refl, pos, List, [], ◌∷◌, ◌++◌, some, arith}
use chopserver.Structs.{Ref}
use chopserver.Machine.{Socket, done, Arrival, bytes, Conn}
use chopserver.Machine.Leads.{Returns}
use chopserver.Data.Transfer.Rounds.{stream}
use chopserver.Manage.Request.{process_request}
use chopserver.Manage.Request.Bounded.{ReturnsUnless, process_request-IsFit}
use chopserver.Fit.Segments.{IsFit}
use chopserver.Fit.Rules.{IsUnprintable}
use chopserver.Env.{Env}
use chopserver.Sockets.{SockAddr, Kernel, connect_to_server, or_errno}
use chopserver.Console.{exit_1, client_loop, client_start, ready}
use chopserver.Protocol.Starting.{begun, client_start-converse}
use chopserver.Protocol.{
  Message, text, enquire, sleep, leave, confirm, refuse, a_text, an_enquiry, sleeping, leaving,
  awake, asleep, stays, left, encode, handle, go_on, converse,
}
use chopserver.Protocol.Ends.{IsFluent, Went}
use chopserver.Protocol.Handling.{process_request-handle}
use chopserver.Protocol.Talking.{turns}
use chopserver.Protocol.Looping.{Comes, comes, no_more}
use chopserver.Tests.Peers.{peer, receiving}

abbrev hearing : List Arrival → Conn
hearing arrivals = record (receiving arrivals) { cli = record peer { window = 255 } }

hearing-IsFluent : (arrivals : List Arrival) → IsFluent "[SERVER %d]" 1000 (hearing arrivals)
hearing-IsFluent arrivals = record {
  quiet = record { memory = refl; writes = refl };
  tagged = refl;
  window = omega arith;
  ticks = refl;
}

abbrev garbage : List Arrival
garbage = bytes (0 ∷ 2 ∷ 7 ∷ 200 ∷ 99 ∷ 3 ∷ []) ∷ Arrival.broken 4 ∷ bytes (1 ∷ 1 ∷ 9 ∷ []) ∷ []

process_request-IsFit_example :
    ReturnsUnless IsUnprintable
      (λ _. IsFit 13)
      (process_request Ref.here Ref.here (hearing garbage))
process_request-IsFit_example =
    process_request-IsFit 13 (omega arith) (hearing garbage)
      (record { header = omega arith; window = omega arith; left = omega arith; segments = tt })

abbrev asked_to_sleep : List Arrival
asked_to_sleep = bytes (0 ∷ 22 ∷ 0 ∷ 0 ∷ 0 ∷ 5 ∷ []) ∷ []

coded : asked_to_sleep ≡ stream (encode sleep ++ (0 ∷ 5 ∷ [])) []
unfolding stream encode
coded = refl

process_request-handle_example :
    Returns
      (λ r c'.
        (r ≡ pos 0)
        × Went "[SERVER %d]" 1000
            (stays asleep)
            (confirm sleeping ∷ [])
            (stream (0 ∷ 5 ∷ []) [])
            (hearing asked_to_sleep)
            c')
      (process_request Ref.here Ref.here (hearing asked_to_sleep))
unfolding handle
process_request-handle_example =
    process_request-handle "[SERVER %d]" 1000 awake sleep (0 ∷ 5 ∷ []) [] (hearing asked_to_sleep)
      (hearing-IsFluent asked_to_sleep) refl tt coded

-- The last message is not taken.
abbrev talk : List Message
talk = text 1 3 (b'a' ∷ b'b' ∷ b'c' ∷ []) ∷ sleep ∷ sleep ∷ enquire ∷ leave ∷ enquire ∷ []

abbrev reachable : Kernel
reachable = record {
  socket_call = done 4;
  setsockopt_call = done tt;
  bind_call = done tt;
  listen_call = done tt;
  gethostbyname_call = λ name. done (127 ∷ 0 ∷ 0 ∷ 1 ∷ []);
  connect_call = done tt;
}

abbrev blank : SockAddr
blank = record { sin_family = 0; sin_port = []; sin_addr = []; sin_zero = [] }

abbrev talking : Socket
talking = record {
  inbox =
      stream (encode (text 1 3 (b'a' ∷ b'b' ∷ b'c' ∷ [])) ++ (encode sleep ++ []))
        (stream (encode sleep ++ (encode enquire ++ (encode leave ++ (encode enquire ++ [])))) []);
  accepts = [];
  sent = [];
}

abbrev at_first : Env
at_first = record {
  mallocs = [];
  allocated = 0;
  freed = 0;
  closed = [];
  clock = 1000;
  header_type = 0;
  shown = [];
}

found : (connect_to_server Ref.here blank (some "127.0.0.1") (pos 50001) reachable).0 ≡ pos 4
unfolding connect_to_server or_errno
found = refl

talk-Comes : Comes [] [] talk talking.inbox
unfolding stream encode
talk-Comes =
    let last = comes {m = enquire} [] [] no_more in
    let leaving_last = comes {m = leave} (encode enquire ++ []) [] last in
    let asking = comes {m = enquire} (encode leave ++ (encode enquire ++ [])) [] leaving_last in
    let second =
      comes {m = sleep} (encode enquire ++ (encode leave ++ (encode enquire ++ []))) [] asking in
    comes (encode sleep ++ []) _ (comes {m = sleep} [] _ second)

client_start-converse_example :
    (client_start reachable blank talking at_first
      ≡ ready (begun 4 talking at_first) (pos 4 ∷ pos 0 ∷ []) (pos 4))
    × Returns
        (λ n c'.
          (n ≡ exit_1)
          × Comes [] [] (enquire ∷ []) c'.sock.inbox
          × Went "[SERVER %d]" 1000 left
              (confirm a_text
                ∷ confirm sleeping
                ∷ refuse sleeping
                ∷ confirm an_enquiry
                ∷ confirm leaving
                ∷ [])
              c'.sock.inbox
              (begun 4 talking at_first)
              c')
        (client_loop (turns talk) (begun 4 talking at_first))
unfolding converse handle go_on
client_start-converse_example =
    client_start-converse reachable blank 4 talking at_first talk [] [] refl refl found
      (omega arith) ((omega arith, refl), (tt, (tt, (tt, (tt, (tt, tt)))))) talk-Comes
