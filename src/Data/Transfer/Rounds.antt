-- ===== src/Data/Transfer/Rounds.antt =====
-- `read_data` where memory is to be had and the bytes have come: one round, and all of them.
use mathlib.Core.List.{append_assoc}
use chopserver.Base.{
  ℕ, zero, suc, ◌+◌, ◌-◌, ◌<◌, ◌≡◌, refl, ap, sym, pos, List, [], ◌∷◌, ◌++◌, arith, length,
  length-append, take_append, drop_append, true, ◌==◌,
}
use chopserver.Structs.{Buffer}
use chopserver.Env.{malloc-ok}
use chopserver.Memory.{init_buffer_struct}
use chopserver.Machine.{
  Arrival, bytes, Socket, done, receive_from, read_socket, Conn, ok, unless_neg, ◌>>=◌,
}
use chopserver.Packet.Utility.{append_buffer, link_at_end, update_last, last_or, store_at_start}
use chopserver.Data.Transfer.{
  append_received, set_received, no_buffer, smaller, segment_bytes, store_read, read_data_loop,
}
use chopserver.Data.Transfer.Writing.{payload}

-- What is left to arrive of `bs`, before `rest`.
unfoldable pub stream : List ℕ → List Arrival → List Arrival
stream [] rest = rest
stream (b ∷ bs) rest = bytes (b ∷ bs) ∷ rest

-- A read of what has come together with more.
pub read_socket-stream :
    (x : ℕ) (xs ys : List ℕ) (rest : List Arrival) (s : Socket)
    → s.inbox ≡ stream (x ∷ xs ++ ys) rest
    → read_socket (suc (length xs)) s ≡ (done (x ∷ xs), record s { inbox = stream ys rest })
unfolding read_socket receive_from stream
read_socket-stream x xs [] rest s e =
    rw (e, receive_from) (ground (arith, take_append xs [], length-append xs []))
read_socket-stream x xs (y ∷ ys) rest s e =
    rw (e, receive_from)
      (ground (arith, take_append xs (y ∷ ys), drop_append xs (y ∷ ys), length-append xs (y ∷ ys)))

last_or-link_at_end :
    (d : Buffer) (bs : List Buffer) (b : Buffer) → last_or d (link_at_end bs b) ≡ b
unfolding link_at_end
last_or-link_at_end d [] b = refl
last_or-link_at_end d (x ∷ bs) b = last_or-link_at_end x bs b

pub update_last-link_at_end :
    (f : Buffer → Buffer) (bs : List Buffer) (b : Buffer)
    → update_last f (link_at_end bs b) ≡ link_at_end bs (f b)
unfolding link_at_end
update_last-link_at_end f [] b = refl
update_last-link_at_end f (x ∷ []) b = refl
update_last-link_at_end f (x ∷ y ∷ bs) b = ap (λ l. x ∷ l) (update_last-link_at_end f (y ∷ bs) b)

pub payload-link_at_end :
    (bs : List Buffer) (b : Buffer) → payload (link_at_end bs b) ≡ payload bs ++ payload (b ∷ [])
unfolding link_at_end
payload-link_at_end [] b = refl
payload-link_at_end (x ∷ bs) b =
    rw (payload-link_at_end bs b)
      (sym (append_assoc (segment_bytes x) (payload bs) (segment_bytes b ++ [])))

-- A segment of `window` bytes that holds what a read has stored in it.
abbrev pub filled_segment : ℕ → List ℕ → Buffer
filled_segment window bs = record { bytes = bs; inbuf = length bs; bufsize = window }

-- The connection after one round.
abbrev pub after_round : Conn → (window : ℕ) → List ℕ → List Arrival → Conn
after_round c window bs inbox = record c {
  sock = record c.sock { inbox = inbox };
  pack = record c.pack {
    data_section = link_at_end c.pack.data_section (filled_segment window bs);
    datalen = c.pack.datalen + 1;
  };
  env = record c.env { allocated = c.env.allocated + 2 };
}

-- A new segment behind the others, where memory is to be had.
pub append_received-ok :
    (w : ℕ) (c : Conn)
    → 0 < w
    → c.env.mallocs ≡ []
    → append_received (pos w) c
      ≡ ok (pos 0) (record c {
        pack = record c.pack {
          data_section =
              link_at_end c.pack.data_section (record { bytes = []; inbuf = 0; bufsize = w });
          datalen = c.pack.datalen + 1;
        };
        env = record c.env { allocated = c.env.allocated + 2 };
      })
unfolding append_received append_buffer init_buffer_struct
append_received-ok zero c positive h = absurd (omega arith)
append_received-ok (suc k) c positive h =
    let e = record c.env { allocated = c.env.allocated + 1 } in
    rw (malloc-ok c.env h, malloc-ok e h) (ground arith)

pub round-ok :
    (rounds x total : ℕ) (xs ys : List ℕ) (rest : List Arrival) (c : Conn) (remaining : ℕ)
    → c.env.mallocs ≡ []
    → 0 < c.cli.window
    → smaller c.cli.window remaining ≡ suc (length xs)
    → c.sock.inbox ≡ stream (x ∷ xs ++ ys) rest
    → read_data_loop (suc rounds) remaining total c
      ≡ read_data_loop rounds
          (remaining - suc (length xs))
          (total + suc (length xs))
          (after_round c c.cli.window (x ∷ xs) (stream ys rest))
unfolding read_data_loop ◌>>=◌ unless_neg set_received
round-ok rounds x total xs ys rest c remaining h w n e =
    let fresh : Buffer = record { bytes = []; inbuf = 0; bufsize = c.cli.window } in
    let same : (suc (length xs) == suc (length xs)) ≡ true = ground arith in
    rw (append_received-ok c.cli.window c w h) (
      rw (last_or-link_at_end no_buffer c.pack.data_section fresh) (
        rw n (
          rw (read_socket-stream x xs ys rest c.sock e) (
            rw (same, update_last-link_at_end (store_read (x ∷ xs)) c.pack.data_section fresh)
              (rw (update_last-link_at_end _ c.pack.data_section _, store_at_start (x ∷ xs)))))))
