-- ===== src/Fit/Reading.antt =====
-- The functions that read: every read stores inside the array it was given.
use chopserver.Base.{
  ℕ, zero, suc, ◌≤◌, ◌≡◌, ℤ, pos, negsuc, pos_part, is_neg, ◌==◌, ◌||◌, if◌then◌else◌, List,
  Bool-cases, inl, inr, false, arith, length,
}
use chopserver.Structs.{Ref, is_null}
use chopserver.Machine.{Conn, M, Io, done, failed, read_socket, set_packet, gets, in_sock, ◌>>=◌}
use chopserver.Machine.Reads.{got, got-read_socket}
use chopserver.Data.Transfer.{
  received, set_received, finish_round, read_data_loop, read_data, take_header, read_header,
  smaller, set_header,
}
use chopserver.Fit.Segments.{IsFit}
use chopserver.Fit.Rules.{
  Fits, returned, Fit, Fit-pure, Fit-gets_bind, Fit-if, Fit-bind, Fit-mark_closed, read-IsFit,
}
use chopserver.Fit.Appending.{stored-IsFit, counted-IsFit, after_append-Fits}

module _ (most : ℕ) where
  finish_round-Fits :
      (expected : ℕ) (c : Conn) (r : Io (List ℕ)) (next : ℕ → M ℤ)
      → IsFit most c
      → got r ≤ (received c).bufsize
      → ((k : ℕ) → Fit most (next k))
      → Fits (λ _. IsFit most) (finish_round expected r next c)
  unfolding finish_round set_received set_packet ◌>>=◌
  finish_round-Fits expected c (failed e) next h room rest = (Fit-pure most _).at c h
  finish_round-Fits expected c (done bs) next h room rest =
      elim (Bool-cases (length bs == expected)) [
        | inl full ↦
            rw full
              ((rest (length bs)).at _ (counted-IsFit most bs (length bs) c h room (omega arith)))
        | inr short ↦ rw short (
            (Fit-if most (length bs == 0) _ _
                (Fit-bind most _ _ (Fit-mark_closed most) λ _. Fit-pure most (negsuc 0))
                (Fit-pure most _)).at
              _ (stored-IsFit most bs c h room))
      ]

  smaller-bound : (bufsize remaining : ℕ) → smaller bufsize remaining ≤ bufsize
  smaller-bound bufsize remaining = ground arith

  -- The read of a round, and what follows it.
  round-Fits :
      (remaining : ℕ) (c : Conn) (next : ℕ → M ℤ)
      → IsFit most c
      → ((k : ℕ) → Fit most (next k))
      → Fits
          (λ _. IsFit most)
          ((in_sock (read_socket (smaller (received c).bufsize remaining)) >>= λ r.
              finish_round (smaller (received c).bufsize remaining) r next)
            c)
  unfolding in_sock ◌>>=◌
  round-Fits remaining c next h rest =
      let expected = smaller (received c).bufsize remaining in
      finish_round-Fits expected _ _ next (read-IsFit most expected c h)
        (omega
          (arith, got-read_socket expected c.sock, smaller-bound (received c).bufsize remaining))
        rest

  read_data_loop-Fit :
      (rounds remaining total : ℕ) → Fit most (read_data_loop rounds remaining total)
  unfolding read_data_loop
  read_data_loop-Fit zero remaining total = Fit-pure most _
  read_data_loop-Fit (suc rounds) remaining total = Fit-gets_bind most _ _ λ c h.
      after_append-Fits most _ _ c h λ r c' good app.
        (Fit-gets_bind most received _
            λ d hd. round-Fits remaining d _ hd λ k. read_data_loop-Fit rounds _ _).at
          c' app.fits

  -- A window that fits is not 0.
  divided-Fit :
      (m : M ℤ) (k : ℕ → M ℤ)
      → ((window : ℕ) → Fit most (k window))
      → Fit most (gets (λ c. c.cli.window) >>= λ window. if window == 0 then m else k window)
  divided-Fit m k fit = Fit-gets_bind most _ _ λ c h.
      let wide : (c.cli.window == 0) ≡ false = ground (arith, h.window) in
      rw wide ((fit c.cli.window).at c h)

  pub read_data-Fit : (cli pack : Ref) (remaining : ℤ) → Fit most (read_data cli pack remaining)
  unfolding read_data
  read_data-Fit cli pack remaining =
      Fit-if most (is_null cli || is_null pack || is_neg remaining) _ _ (Fit-pure most _) (
        Fit-if most (pos_part remaining == 0) _ _ (Fit-pure most _)
          (divided-Fit _ _ λ window. read_data_loop-Fit _ _ _))

  Fit-read : (n : ℕ) → Fit most (in_sock (read_socket n))
  unfolding in_sock
  Fit-read n = record { at = λ c h. returned (read-IsFit most n c h) }

  set_header-Fit : (bs : List ℕ) → Fit most (set_packet (set_header bs))
  unfolding set_packet
  set_header-Fit bs = record {
    at = λ c h.
        returned
          (record { header = h.header; window = h.window; left = h.left; segments = h.segments });
  }

  take_header-Fit : (r : Io (List ℕ)) → Fit most (take_header r)
  unfolding take_header
  take_header-Fit (failed e) = Fit-pure most _
  take_header-Fit (done bs) =
      Fit-if most (length bs == 4) _ _
        (Fit-bind most (set_packet (set_header bs)) _ (set_header-Fit bs)
          λ _. Fit-pure most (pos 0))
        (Fit-if most (length bs == 0) _ _
          (Fit-bind most _ _ (Fit-mark_closed most) λ _. Fit-pure most (negsuc 0))
          (Fit-pure most (negsuc 0)))

  pub read_header-Fit : (cli pack : Ref) → Fit most (read_header cli pack)
  unfolding read_header
  read_header-Fit cli pack =
      search (take_header-Fit, Fit-read, Fit-bind most, Fit-if most, Fit-pure most) depth 8
