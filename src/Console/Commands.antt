-- ===== src/Console/Commands.antt =====
-- The words that the client takes for commands, and the packets that they become.
use chopserver.Base.{ℕ, ◌≡◌, refl, List, [], ◌∷◌, ◌++◌, some, false}
use chopserver.Structs.{Ref}
use chopserver.Env.{plain, print}
use chopserver.Machine.{done, Conn, ok, pure, gets, ◌>>=◌}
use chopserver.Debug.{printf}
use chopserver.Data.Scan.{remove_newline}
use chopserver.Packet.Sending.{write_dataless}
use chopserver.Packet.Sending.Exact.{IsQuiet, after_call, write_dataless-ok}
use chopserver.Packet.Receiving.Exact.{after_print}
use chopserver.Console.{
  exit_word, ping_word, pingret_word, pingtimeret_word, sleep_word, wake_word, same_str, send_line,
  take_line, read_stdin, read_server, read_user, client_turn, selects, again, or_exit,
}

-- A word that asks for a packet without data, with the status and the first control byte of it.
pub data IsCommand : List ℕ → ℕ → ℕ → Type 0 where
  leave : IsCommand exit_word 27 0
  ping : IsCommand ping_word 5 0
  ping_back : IsCommand pingret_word 5 1
  ping_time_back : IsCommand pingtimeret_word 5 3
  sleep : IsCommand sleep_word 22 0
  wake : IsCommand wake_word 7 0

-- A line with a command alone is taken from the array, whatever stood there before.
line_of-IsCommand :
    {word : List ℕ} {status control1 : ℕ} (stale : List ℕ) (c : Conn)
    → IsCommand word status control1
    → read_stdin (done (word ++ 10 ∷ [])) stale c
      ≡ or_exit (write_dataless Ref.here 0 status control1 0) c
unfolding read_stdin take_line send_line same_str remove_newline ◌>>=◌ gets
line_of-IsCommand stale c leave = refl
line_of-IsCommand stale c ping = refl
line_of-IsCommand stale c ping_back = refl
line_of-IsCommand stale c ping_time_back = refl
line_of-IsCommand stale c sleep = refl
line_of-IsCommand stale c wake = refl

-- Where memory is to be had and writes are taken whole, a line that holds one of the words `exit`,
-- `ping`, `pingret`, `pingtimeret`, `sleep` and `wake`, and nothing else before its line feed,
-- makes the client send exactly the header of that command and go on, whatever its array of
-- characters held before.
pub client_turn-IsCommand :
    {word : List ℕ} {status control1 : ℕ} (stale : List ℕ) (c : Conn)
    → IsCommand word status control1
    → IsQuiet c
    → client_turn (selects false (some (done (word ++ 10 ∷ []), stale))) c
      ≡ ok again (after_call (after_print c (plain "\n" ∷ [])) 1 (0 ∷ status ∷ control1 ∷ 0 ∷ []))
unfolding client_turn read_server read_user ◌>>=◌ printf print pure
client_turn-IsCommand {status} {control1} stale c command q =
    let c' = after_print c (plain "\n" ∷ []) in
    let q' : IsQuiet c' = record { memory = q.memory; writes = q.writes } in
    rw (line_of-IsCommand stale c' command) (rw (write_dataless-ok 0 status control1 0 c' q') refl)
