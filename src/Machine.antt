-- ===== src/Machine.antt =====
-- The socket of a connection, and the monad in which the handlers of a connection run.
pub mod Leads
pub mod Reads
use chopserver.Base.{
  ℕ, ◌+◌, ℤ, negsuc, List, [], ◌∷◌, ◌++◌, if◌then◌else◌, leb, is_neg, length, take, drop, min,
}
use chopserver.Structs.{Client, Packet}
use chopserver.Env.{Env}

-- What comes in on a socket: bytes that arrive together, or a failure with `errno` = e + 1. The
-- list ends where the peer has closed; a peer that stays silent without closing, on which `read`
-- waits, is not among them. Bytes that arrive as none are the end of the stream too.
pub data Arrival : Type 0 where
  bytes : List ℕ → Arrival
  broken : ℕ → Arrival

-- What a socket can still deliver: its bytes, and one for each arrival.
abbrev pub weight : List Arrival → ℕ
weight [] = 0
weight (bytes bs ∷ rest) = length bs + 1 + weight rest
weight (broken e ∷ rest) = 1 + weight rest

-- What becomes of a `write`: at most k bytes are taken, or it fails with `errno` = e + 1.
pub data Accept : Type 0 where
  upto : ℕ → Accept
  refuses : ℕ → Accept

-- When `accepts` is used up, every `write` is taken whole.
pub record Socket : Type 0 where
  pub inbox : List Arrival
  pub accepts : List Accept
  pub sent : List ℕ

-- The outcome of a system call: its result, or a failure with `errno` = e + 1, which the
-- callers return as `-errno`.
pub data Io (A : Type 0) : Type 0 where
  done : A → Io A
  failed : ℕ → Io A

unfoldable pub receive_from : ℕ → List Arrival → Io (List ℕ) × List Arrival
receive_from n [] = (done [], [])
receive_from n (broken e ∷ rest) = (failed e, rest)
receive_from n (bytes bs ∷ rest) =
    (done (take n bs), if leb (length bs) n then rest else bytes (drop n bs) ∷ rest)

-- `read(fd, buf, n)`: the bytes that were stored.
unfoldable pub read_socket : ℕ → Socket → Io (List ℕ) × Socket
unfolding receive_from
read_socket n s = let (r, rest) = receive_from n s.inbox in (r, record s { inbox = rest })

unfoldable pub write_by : List Accept → List ℕ → Socket → Io ℕ × Socket
write_by [] bs s = (done (length bs), record s { sent = s.sent ++ bs })
write_by (upto k ∷ later) bs s =
    (done (min k (length bs)), record s { accepts = later; sent = s.sent ++ take k bs })
write_by (refuses e ∷ later) bs s = (failed e, record s { accepts = later })

-- `write(fd, buf, n)`: how many bytes were taken.
unfoldable pub write_socket : List ℕ → Socket → Io ℕ × Socket
unfolding write_by
write_socket bs s = write_by s.accepts bs s

-- What a handler works on: the client, the socket behind its `socket_fd`, the packet that is
-- being received, and the environment.
pub record Conn : Type 0 where
  pub cli : Client
  pub sock : Socket
  pub pack : Packet
  pub env : Env

-- The undefined behaviour that a run can meet: a read outside a table of names or outside the table
-- of message headers, a division by a window of 0, a sum that no `int` holds, a `time_t` in an array
-- that is shorter or that has bytes that were never set, a null pointer for a `%s`, a scan beyond an
-- array, a slot beyond the server's array, and a descriptor beyond an `fd_set`.
pub data Fault : Type 0 where
  names headers division overflow short_time indeterminate null_text scan slots fd_set : Fault

-- `FD_SETSIZE`: an `fd_set` has room for the descriptors below it.
abbrev pub fd_setsize : ℕ
fd_setsize = 1024

pub data Run (A : Type 0) : Type 0 where
  ok : A → Conn → Run A
  fault : Fault → Run A
  out_of_fuel : Run A

abbrev pub M : Type 0 → Type 0
M A = Conn → Run A

module _ {A : Type 0} where
  unfoldable pub pure : A → M A
  pure a c = ok a c

  unfoldable pub gets : (Conn → A) → M A
  gets f c = ok (f c) c

  unfoldable pub in_env : (Env → A × Env) → M A
  in_env f c = let (a, e) = f c.env in ok a (record c { env = e })

  unfoldable pub in_sock : (Socket → A × Socket) → M A
  in_sock f c = let (a, s) = f c.sock in ok a (record c { sock = s })

  unfoldable pub undefined : Fault → M A
  undefined f c = fault f

  unfoldable pub exhausted : M A
  exhausted c = out_of_fuel

unfoldable pub set_client : (Client → Client) → M (Unit {0})
set_client f c = ok tt (record c { cli = f c.cli })

unfoldable pub set_packet : (Packet → Packet) → M (Unit {0})
set_packet f c = ok tt (record c { pack = f c.pack })

module _ {A B : Type 0} where
  unfoldable pub and_then : Run A → (A → M B) → Run B
  and_then (ok a c) k = k a c
  and_then (fault f) k = fault f
  and_then out_of_fuel k = out_of_fuel

  infixl 5 ◌>>=◌ ◌>>◌
  -- opening this opens the basic actions too
  unfoldable pub ◌>>=◌ : M A → (A → M B) → M B
  unfolding and_then pure gets in_env in_sock undefined exhausted set_client set_packet
  ◌>>=◌ m k c = and_then (m c) k

  abbrev pub ◌>>◌ : M A → M B → M B
  m >> k = m >>= λ _. k

-- `if (m < 0) return f(m); k`, where `f` is what the caller returns for a negative code.
unfoldable pub unless_neg : M ℤ → (ℤ → ℤ) → (ℤ → M ℤ) → M ℤ
unfolding ◌>>=◌
unless_neg m f k = m >>= λ r. if is_neg r then pure (f r) else k r
