-- ===== src/Data/Transfer/Filling.antt =====
-- `fill_buf` stores behind what the buffer holds, and never beyond its end.
use chopserver.Base.{
  ℕ, zero, suc, ◌+◌, ◌-◌, ◌≤◌, ◌<◌, ◌≡◌, refl, inl, inr, ℤ, pos, negsuc, List, [], ◌∷◌, ◌++◌,
  length, take, take_all, drop, length-append, length-take, ◌==◌, Bool-cases, ==_iff, arith,
}
use mathlib.Core.List.{append-nil}
use chopserver.Structs.{Ref, Buffer}
use chopserver.Machine.{Io, done, failed, Socket, Arrival, bytes, broken, read_socket, receive_from}
use chopserver.Packet.Utility.{store_at}
use chopserver.Data.Transfer.{fill_buf, add_read}

-- A buffer that holds exactly what was stored in it, and has room for it.
pub record IsBuffer (b : Buffer) : Type 0 where
  pub stored : length b.bytes ≡ b.inbuf
  pub fits : b.inbuf ≤ b.bufsize

-- The outcome of a call: nothing where the buffer is full, the error of a read that fails, or the
-- bytes of one read behind those that were there, and no more than there is room for.
pub data Filled (b : Buffer) (s : Socket) : ℤ × Buffer × Socket → Type 0 where
  full : b.inbuf ≡ b.bufsize → Filled b s (pos 0, b, s)
  stays :
      (e : ℕ) (s' : Socket)
      → b.inbuf < b.bufsize
      → read_socket (b.bufsize - b.inbuf) s ≡ (failed e, s')
      → Filled b s (negsuc e, b, s')
  appends :
      (bs : List ℕ) (s' : Socket)
      → b.inbuf < b.bufsize
      → read_socket (b.bufsize - b.inbuf) s ≡ (done bs, s')
      → IsBuffer (record b { bytes = b.bytes ++ bs; inbuf = b.inbuf + length bs })
      → Filled b s (pos 0, record b { bytes = b.bytes ++ bs; inbuf = b.inbuf + length bs }, s')

drop_all : (n : ℕ) (xs : List ℕ) → length xs ≤ n → drop n xs ≡ []
drop_all zero [] h = refl
drop_all zero (x ∷ xs) h = absurd (omega arith)
drop_all (suc n) [] h = refl
drop_all (suc n) (x ∷ xs) h = drop_all n xs (omega arith)

-- What is stored behind everything that is there.
store_at-end : (n : ℕ) (bs old : List ℕ) → length old ≡ n → store_at n bs old ≡ old ++ bs
store_at-end n bs old h =
    rw
      (
        take_all n old (omega (arith, h)),
        drop_all (n + length bs) old (omega (arith, h)),
        append-nil bs,
      )
      refl

-- How much a read can bring.
data IsRead (n : ℕ) (s : Socket) : Io (List ℕ) × Socket → Type 0 where
  fails : (e : ℕ) (s' : Socket) → read_socket n s ≡ (failed e, s') → IsRead n s (failed e, s')
  brings :
      (bs : List ℕ) (s' : Socket)
      → read_socket n s ≡ (done bs, s')
      → length bs ≤ n
      → IsRead n s (done bs, s')

read_socket-IsRead : (n : ℕ) (s : Socket) → IsRead n s (read_socket n s)
unfolding read_socket receive_from
read_socket-IsRead n s = by_inbox s.inbox refl
  where
    by_inbox : (l : List Arrival) → s.inbox ≡ l → IsRead n s (read_socket n s)
    by_inbox [] e = rw e (brings [] (record s { inbox = [] }) refl (omega arith))
    by_inbox (broken k ∷ rest) e = rw e (fails k (record s { inbox = rest }) refl)
    by_inbox (bytes bs ∷ rest) e =
        rw e (brings (take n bs) _ refl (omega (arith, length-take n bs)))

add_read-Filled :
    (b : Buffer) (s : Socket) {r : Io (List ℕ) × Socket}
    → IsBuffer b
    → b.inbuf < b.bufsize
    → IsRead (b.bufsize - b.inbuf) s r
    → Filled b s (add_read b r)
unfolding add_read
add_read-Filled b s w room (fails e s' at) = stays e s' room at
add_read-Filled b s w room (brings bs s' e small) = rw (store_at-end b.inbuf bs b.bytes w.stored) (
    appends bs s' room e (record {
      stored = omega (arith, length-append b.bytes bs, w.stored);
      fits = omega (arith, small, w.fits);
    }))

-- On a buffer that holds what was stored in it, `fill_buf` with a descriptor does nothing if the
-- buffer is full, and else reads once, for as many bytes as there is room for: where the read fails
-- it returns `-errno` and leaves the buffer as it was, and where it does not fail it returns 0 and
-- appends exactly the bytes that were read; the buffer holds what was stored in it again and has not outgrown its size.
pub fill_buf-Filled :
    (b : Buffer) (fd : ℕ) (s : Socket) → IsBuffer b → Filled b s (fill_buf Ref.here b (pos fd) s)
unfolding fill_buf
fill_buf-Filled b fd s w = elim (Bool-cases (b.inbuf == b.bufsize)) [
  | inl is_full ↦ rw is_full (full ((==_iff b.inbuf b.bufsize).0 is_full))
  | inr room ↦
      rw room (
        add_read-Filled b s w (ground (arith, w.fits)) (read_socket-IsRead (b.bufsize - b.inbuf) s))
]
