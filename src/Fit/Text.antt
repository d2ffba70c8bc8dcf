-- ===== src/Fit/Text.antt =====
-- The reading of a long text, and `parse_text`.
use chopserver.Base.{
  ℕ, zero, suc, ◌+◌, ◌^◌, ◌≤◌, ◌<◌, ◌≡◌, refl, ℤ, pos, negsuc, pos_part, is_neg, ltb, ◌==◌, ◌||◌,
  List, Option, some, Bool-cases, inl, inr, true, arith, length,
}
use chopserver.Structs.{Ref, is_null, end_text}
use chopserver.Machine.{
  Conn, M, weight, Io, done, failed, read_socket, set_packet, in_sock, ◌>>=◌, exhausted,
}
use chopserver.Machine.Reads.{got, got-read_socket, weight-read_socket}
use chopserver.Data.Transfer.{received, set_received, store_read}
use chopserver.Data.Scan.First.{buf_contains_symbol-Scanned, Scanned, found, missing}
use chopserver.Packet.Receiving.{finish_long_round, long_round, long_text_loop, read_long_text}
use chopserver.Fit.Segments.{IsFit}
use chopserver.Fit.Rules.{Fits, returned, starved, Fit, Fit-pure, Fit-gets_bind, Fit-if, read-IsFit}
use chopserver.Fit.Appending.{changed, counted-IsFit, after_append-Fits}

module _ (most : ℕ) where
  -- Where the scan for the end of a text stops, it stops inside what was read.
  stop-bound :
      (bs : List ℕ) (symbol : ℕ)
      → 0 < length bs
      → (stop : Option ℤ) → Scanned bs symbol (length bs) stop
      → (r : ℤ) × ((stop ≡ some r) × (pos_part r ≤ length bs))
  stop-bound bs symbol h stop (found i e less at before) = (pos i, (e, omega arith))
  stop-bound bs symbol h stop (missing e absent) = (negsuc 1, (e, omega arith))

  -- The end of a round of a long text that has read `bs`.
  finish_long_round-Fits :
      (bs : List ℕ) (total : ℕ) (stop_len : ℤ) (next : ℕ → M ℤ) (c : Conn)
      → IsFit most c
      → total + length bs < 2 ^ 31
      → length bs ≤ (received c).bufsize
      → pos_part stop_len ≤ length bs
      → ((d : Conn)
          → IsFit most d
          → d.sock ≡ c.sock
          → Fits (λ _. IsFit most) (next (total + length bs) d))
      → Fits
          (λ _. IsFit most)
          (finish_long_round bs total (some stop_len) next (changed (store_read bs) c))
  unfolding finish_long_round set_received set_packet ◌>>=◌
  finish_long_round-Fits bs total stop_len next c h small room le rest =
      let small' : ltb (total + length bs) (2 ^ 31) ≡ true = ground (arith, small) in
      rw small' (elim (Bool-cases (is_neg stop_len)) [
        | inl on ↦ rw on (rest _ (counted-IsFit most bs (length bs) c h room (omega arith)) refl)
        | inr stops ↦ rw stops (returned (counted-IsFit most bs (pos_part stop_len) c h room le))
      ])

  long_round-Fits :
      (total : ℕ) (r : Io (List ℕ)) (next : ℕ → M ℤ) (c : Conn)
      → IsFit most c
      → total + got r < 2 ^ 31
      → got r ≤ (received c).bufsize
      → ((k : ℕ) (d : Conn)
          → k ≡ total + got r
          → IsFit most d
          → d.sock ≡ c.sock
          → Fits (λ _. IsFit most) (next k d))
      → Fits (λ _. IsFit most) (long_round total r next c)
  unfolding long_round set_received set_packet ◌>>=◌
  long_round-Fits total (failed e) next c h small room rest = (Fit-pure most _).at c h
  long_round-Fits total (done bs) next c h small room rest = elim (Bool-cases (length bs == 0)) [
    | inl nothing ↦ rw nothing ((Fit-pure most _).at c h)
    | inr more ↦
        let some_left : 0 < length bs = ground arith in
        let (stop, (e, le)) =
          stop-bound bs end_text some_left _
            (buf_contains_symbol-Scanned bs (length bs) end_text some_left (omega arith)) in
        rw (more, e)
          (finish_long_round-Fits bs total stop next c h small room le
            λ d hd same. rest _ d refl hd same)
  ]

  -- What is still to come bounds the sum, so an `int` holds it.
  long_text_loop-Fits :
      (fuel total : ℕ) (c : Conn)
      → most < 2 ^ 31
      → IsFit most c
      → total + weight c.sock.inbox ≤ most
      → Fits (λ _. IsFit most) (long_text_loop fuel total c)
  unfolding long_text_loop ◌>>=◌ in_sock exhausted
  long_text_loop-Fits zero total c small h sum = starved
  long_text_loop-Fits (suc fuel) total c small h sum =
      after_append-Fits most _ _ c h λ r c' good app.
        let n = c.cli.window in
        let sum' : total + weight c'.sock.inbox ≤ most = rw app.sock sum in
        long_round-Fits total (read_socket n c'.sock).0 _ _ (read-IsFit most n c' app.fits)
          (omega (arith, weight-read_socket n c'.sock))
          (rw (app.room good) (got-read_socket n c'.sock))
          λ k d e hd same.
            long_text_loop-Fits fuel k d small hd
              (rw (same, e) (omega (arith, weight-read_socket n c'.sock)))

  pub read_long_text-Fit : most < 2 ^ 31 → (cli pack : Ref) → Fit most (read_long_text cli pack)
  unfolding read_long_text
  read_long_text-Fit small cli pack =
      Fit-if most (is_null cli || is_null pack) _ _ (Fit-pure most _) (
        Fit-gets_bind most _ _
          λ c h. long_text_loop-Fits (weight c.sock.inbox + 1) 0 c small h (omega (arith, h.left)))
