-- ===== src/Manage/Request/Enquiries.antt =====
-- Enquiries, as `process_request` answers them.
use Prim.Native.String.{String}
use chopserver.Base.{
  ℕ, zero, suc, ◌+◌, ◌*◌, ◌≤◌, ◌≡◌, refl, pos, List, [], ◌∷◌, ◌++◌, arith, length, take_all, ap,
  false, ltb, ◌==◌, ◌<◌,
}
use chopserver.Structs.{Ref}
use mathlib.Core.List.{append_assoc}
use chopserver.Env.{plain, with_time, with_int, print}
use chopserver.Packet.Utility.{link_at_end}
use chopserver.Machine.{Arrival, Conn, ok, ◌>>=◌, gets, pure, unless_neg}
use chopserver.Machine.Leads.{Returns}
use chopserver.Data.Transfer.{read_data, read_data_loop, buffers_for, smaller}
use chopserver.Data.Transfer.Whole.{buffers_for_bounds}
use chopserver.Data.Transfer.Rounds.{stream, round-ok, after_round}
use chopserver.Packet.Sending.{word_bytes}
use chopserver.Packet.Sending.Exact.{IsQuiet, after_call, write_dataless-ok, write_wordpack-ok}
use chopserver.Debug.{print_enquiry, print_line, print_time, print_time_of, printf}
use chopserver.Packet.Receiving.{parse_header, parse_enquiry, answer}
use chopserver.Packet.Receiving.Exact.{HasTag, print_line-ok, print_prefix-ok, after_print}
use chopserver.Manage.Request.{process_request}
use chopserver.Manage.Request.Exact.{
  taken, taken-IsQuiet, process_request-header, Answered, then_print-Answered, after_call-Handled,
}

-- What an enquiry without data asks for: the code, the answer, the blocks that it takes, and the
-- line that is printed.
pub data IsAsked (clock : ℕ) : ℕ → ℕ → List ℕ → String → Type 0 where
  plain_one : IsAsked clock 0 1 (0 ∷ 6 ∷ 5 ∷ 0 ∷ []) " ENQUIRY\n"
  returning : IsAsked clock 1 1 (0 ∷ 5 ∷ 0 ∷ 0 ∷ []) " ENQURIY Requested\n"
  timed : IsAsked clock 3 3 (0 ∷ 5 ∷ 2 ∷ 8 ∷ word_bytes 8 clock) " Time ENQUIRY Requested\n"

parse_enquiry-ok :
    (control2 : ℕ) (left : List Arrival) (c : Conn) {control1 n : ℕ} {reply : List ℕ}
    {line : String}
    → IsAsked c.env.clock control1 n reply line
    → IsQuiet c
    → parse_enquiry Ref.here Ref.here (taken c 0 5 control1 control2 left)
      ≡ ok (pos 0) (after_call (taken c 0 5 control1 control2 left) n reply)
unfolding parse_enquiry answer ◌>>=◌ gets pure unless_neg
parse_enquiry-ok control2 left c plain_one q =
    rw (write_dataless-ok 0 6 5 0 _ (taken-IsQuiet c 0 5 0 control2 left q)) refl
parse_enquiry-ok control2 left c returning q =
    rw (write_dataless-ok 0 5 0 0 _ (taken-IsQuiet c 0 5 1 control2 left q)) refl
parse_enquiry-ok control2 left c timed q =
    rw (write_wordpack-ok 0 5 2 8 c.env.clock _ (taken-IsQuiet c 0 5 3 control2 left q)) refl

print_enquiry-ok :
    (control2 clock : ℕ) (left : List Arrival) (c : Conn) {control1 n : ℕ} {reply : List ℕ}
    {line : String}
    → IsAsked clock control1 n reply line
    → print_enquiry Ref.here Ref.here (after_call (taken c 0 5 control1 control2 left) n reply)
      ≡ print_line line (after_call (taken c 0 5 control1 control2 left) n reply)
unfolding print_enquiry ◌>>=◌ gets
print_enquiry-ok control2 clock left c plain_one = refl
print_enquiry-ok control2 clock left c returning = refl
print_enquiry-ok control2 clock left c timed = refl

-- An enquiry without data.
pub enquiry-Answered :
    (tag : String) {control1 n : ℕ} {reply : List ℕ} {line : String} (control2 : ℕ) (more : List ℕ)
    (rest : List Arrival) (c : Conn)
    → IsAsked c.env.clock control1 n reply line
    → IsQuiet c
    → HasTag c tag
    → c.sock.inbox ≡ stream (0 ∷ 5 ∷ control1 ∷ control2 ∷ more) rest
    → Returns
        (λ r c'.
          (r ≡ pos 0) × Answered c tag c.cli.inc_flag 0 reply (stream more rest) (plain line) c')
        (process_request Ref.here Ref.here c)
unfolding parse_header ◌>>=◌ gets
enquiry-Answered tag {control1} {n} {reply} {line} control2 more rest c asked q t e =
    let left = stream more rest in
    process_request-header 0 5 control1 control2 more rest c q e (
      then_print-Answered (parse_enquiry Ref.here Ref.here) (print_enquiry Ref.here Ref.here) tag _
        c _ _ t (parse_enquiry-ok control2 left c asked q)
        (λ t'.
          rw (print_enquiry-ok control2 c.env.clock left c asked) (print_line-ok tag line _ t'))
        (after_call-Handled c.cli.inc_flag n 0 5 control1 control2 reply left c q))

-- Eight bytes need one segment of a window that has room for them.
one_at_most : (k w : ℕ) → 8 ≤ w → 8 ≤ k * w → k * w < 8 + w → k ≡ 1
one_at_most zero w h low high = absurd (omega arith)
one_at_most (suc zero) w h low high = refl
one_at_most (suc (suc k)) w h low high =
    let split : suc (suc k) * w ≡ w + (w + k * w) = ground arith in absurd (omega arith)

one_buffer : (w : ℕ) → 8 ≤ w → buffers_for 8 w ≡ 1
one_buffer w h = let b = buffers_for_bounds 8 w (omega arith) in one_at_most _ w h b.0 b.1

-- The time of the peer in the packet.
read_time-ok :
    (x : ℕ) (xs more : List ℕ) (rest : List Arrival) (c : Conn)
    → c.env.mallocs ≡ []
    → 8 ≤ c.cli.window
    → length (x ∷ xs) ≡ 8
    → c.sock.inbox ≡ stream (x ∷ xs ++ more) rest
    → read_data Ref.here Ref.here (pos 8) c
      ≡ ok (pos 8) (after_round c c.cli.window (x ∷ xs) (stream more rest))
unfolding read_data ◌>>=◌ gets read_data_loop pure
read_time-ok x xs more rest c m w len e =
    let wide : (c.cli.window == 0) ≡ false = ground arith in
    let short : smaller c.cli.window 8 ≡ suc (length xs) = ground arith in
    let all : suc (length xs) ≡ 8 = ground arith in
    rw (wide, one_buffer c.cli.window w)
      (rw (round-ok 0 x 0 xs more rest c 8 m (omega arith) short e, all) refl)

-- The connection after the time has been read and confirmed.
abbrev told : Conn → (x : ℕ) → (xs more : List ℕ) → List Arrival → Conn
told c x xs more rest =
    after_call
      (after_round (taken c 0 5 2 8 (stream (x ∷ xs ++ more) rest)) c.cli.window (x ∷ xs)
        (stream more rest))
      1 (0 ∷ 6 ∷ 5 ∷ 0 ∷ [])

parse_time-ok :
    (x : ℕ) (xs more : List ℕ) (rest : List Arrival) (c : Conn)
    → IsQuiet c
    → 8 ≤ c.cli.window
    → length (x ∷ xs) ≡ 8
    → parse_enquiry Ref.here Ref.here (taken c 0 5 2 8 (stream (x ∷ xs ++ more) rest))
      ≡ ok (pos 0) (told c x xs more rest)
unfolding parse_enquiry answer ◌>>=◌ gets pure unless_neg
parse_time-ok x xs more rest c q w len =
    let c' = taken c 0 5 2 8 (stream (x ∷ xs ++ more) rest) in
    rw (read_time-ok x xs more rest c' q.memory w len refl) (
      rw
        (write_dataless-ok 0 6 5 0 (after_round c' c.cli.window (x ∷ xs) (stream more rest))
          (record { memory = q.memory; writes = q.writes }))
        refl)

print_time-ok :
    (tag : String) (x : ℕ) (xs more : List ℕ) (rest : List Arrival) (c : Conn)
    → 8 ≤ c.cli.window
    → length (x ∷ xs) ≡ 8
    → HasTag (told c x xs more rest) tag
    → print_enquiry Ref.here Ref.here (told c x xs more rest)
      ≡ ok (pos 0) (
          after_print
            (told c x xs more rest)
            (with_int tag c.cli.socket_fd ∷ with_time " Time ENQUIRY: \"%ld\"\n" (x ∷ xs) ∷ []))
unfolding print_enquiry print_time print_time_of printf print ◌>>=◌ gets pure link_at_end
print_time-ok tag x xs more rest c w len t =
    let long : ltb c.cli.window 8 ≡ false = ground arith in
    let enough : ltb (suc (length xs)) 8 ≡ false = ground arith in
    let d = told c x xs more rest in
    rw (long, enough, print_prefix-ok tag d t)
      (rw (take_all 8 (x ∷ xs) (omega arith)) (
        ap (λ l. ok (pos 0) (record d { env = record d.env { shown = l } }))
          (append_assoc d.env.shown (with_int tag c.cli.socket_fd ∷ [])
            (with_time " Time ENQUIRY: \"%ld\"\n" (x ∷ xs) ∷ []))))

-- The time of the peer, in eight bytes.
pub time-Answered :
    (tag : String) (stamp more : List ℕ) (rest : List Arrival) (c : Conn)
    → IsQuiet c
    → HasTag c tag
    → 8 ≤ c.cli.window
    → length stamp ≡ 8
    → c.sock.inbox ≡ stream (0 ∷ 5 ∷ 2 ∷ 8 ∷ stamp ++ more) rest
    → Returns
        (λ r c'.
          (r ≡ pos 0)
          × Answered c tag c.cli.inc_flag 0
              (0 ∷ 6 ∷ 5 ∷ 0 ∷ [])
              (stream more rest)
              (with_time " Time ENQUIRY: \"%ld\"\n" stamp)
              c')
        (process_request Ref.here Ref.here c)
unfolding parse_header ◌>>=◌ gets
time-Answered tag [] more rest c q t w len e = absurd (omega arith)
time-Answered tag (x ∷ xs) more rest c q t w len e =
    process_request-header 0 5 2 8 (x ∷ xs ++ more) rest c q e (
      then_print-Answered (parse_enquiry Ref.here Ref.here) (print_enquiry Ref.here Ref.here) tag _
        c _ _ t (parse_time-ok x xs more rest c q w len) (print_time-ok tag x xs more rest c w len)
        (record {
          inc_flag = refl;
          out_flag = refl;
          socket_fd = refl;
          sent = refl;
          inbox = refl;
          shown = refl;
          header_type = refl;
          memory = q.memory;
          writes = q.writes;
        }))
