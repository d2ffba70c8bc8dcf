-- ===== src/Machine/Reads.antt =====
-- A read takes from what the socket can still deliver, never adds to it.
use chopserver.Base.{ℕ, ◌+◌, ◌≤◌, List, [], ◌∷◌, arith, length, length-take, length-drop}
use chopserver.Machine.{
  Arrival, bytes, broken, Socket, Io, done, failed, receive_from, read_socket, weight,
}

-- How many bytes a read has stored.
abbrev pub got : Io (List ℕ) → ℕ
got (done bs) = length bs
got (failed code) = 0

receive_from-weight :
    (n : ℕ) (inbox : List Arrival)
    → weight (receive_from n inbox).1 + got (receive_from n inbox).0 ≤ weight inbox
unfolding receive_from
receive_from-weight n [] = omega arith
receive_from-weight n (broken e ∷ rest) = omega arith
receive_from-weight n (bytes bs ∷ rest) = ground (arith, length-take n bs, length-drop n bs)

-- What is left and what was read are no more than there was.
pub weight-read_socket :
    (n : ℕ) (s : Socket)
    → weight (read_socket n s).1.inbox + got (read_socket n s).0 ≤ weight s.inbox
unfolding read_socket
weight-read_socket n s = receive_from-weight n s.inbox

receive_from-got : (n : ℕ) (inbox : List Arrival) → got (receive_from n inbox).0 ≤ n
unfolding receive_from
receive_from-got n [] = omega arith
receive_from-got n (broken e ∷ rest) = omega arith
receive_from-got n (bytes bs ∷ rest) = omega (arith, length-take n bs)

-- A read stores no more than it was asked for.
pub got-read_socket : (n : ℕ) (s : Socket) → got (read_socket n s).0 ≤ n
unfolding read_socket
got-read_socket n s = receive_from-got n s.inbox
