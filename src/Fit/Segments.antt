-- ===== src/Fit/Segments.antt =====
-- The segments of a packet: what has been stored in one lies inside its array.
use chopserver.Base.{
  ℕ, ◌≤◌, ◌<◌, ◌≡◌, refl, ap, List, [], ◌∷◌, length, length-append, length-drop, drop, arith, ◌+◌,
  ◌-◌,
}
use chopserver.Structs.{Buffer}
use chopserver.Machine.{Conn, weight}
use chopserver.Packet.Utility.{store_at, link_at_end, update_last, last_or}
use chopserver.Data.Transfer.{store_read}

-- `inbuf` counts bytes that were stored, and they lie inside the array, which has room for a
-- `time_t`.
pub record SegmentFits (b : Buffer) : Type 0 where
  pub filled : b.inbuf ≤ length b.bytes
  pub held : length b.bytes ≤ b.bufsize
  pub room : 8 ≤ b.bufsize

abbrev pub AllFit : List Buffer → Type 0
AllFit [] = Unit
AllFit (b ∷ bs) = SegmentFits b × AllFit bs

pub link_at_end-AllFit :
    (bs : List Buffer) (new : Buffer) → AllFit bs → SegmentFits new → AllFit (link_at_end bs new)
unfolding link_at_end
link_at_end-AllFit [] new all fits = (fits, tt)
link_at_end-AllFit (b ∷ bs) new all fits = (all.0, link_at_end-AllFit bs new all.1 fits)

pub last-link_at_end :
    (d : Buffer) (bs : List Buffer) (new : Buffer) → last_or d (link_at_end bs new) ≡ new
unfolding link_at_end
last-link_at_end d [] new = refl
last-link_at_end d (b ∷ bs) new = last-link_at_end b bs new

pub update_last-AllFit :
    (f : Buffer → Buffer) (d : Buffer) (bs : List Buffer)
    → AllFit bs
    → (SegmentFits (last_or d bs) → SegmentFits (f (last_or d bs)))
    → AllFit (update_last f bs)
update_last-AllFit f d [] all change = tt
update_last-AllFit f d (b ∷ []) all change = (change all.0, tt)
update_last-AllFit f d (b ∷ c ∷ bs) all change =
    (all.0, update_last-AllFit f b (c ∷ bs) all.1 change)

-- Two changes of the last segment are one.
pub update_last-update_last :
    (f g : Buffer → Buffer) (bs : List Buffer)
    → update_last g (update_last f bs) ≡ update_last (λ b. g (f b)) bs
update_last-update_last f g [] = refl
update_last-update_last f g (b ∷ []) = refl
update_last-update_last f g (b ∷ c ∷ []) = refl
update_last-update_last f g (b ∷ c ∷ d ∷ bs) =
    ap (λ rest. b ∷ rest) (update_last-update_last f g (c ∷ d ∷ bs))

length-store_at :
    (bs old : List ℕ) → length (store_at 0 bs old) ≡ length bs + (length old - length bs)
length-store_at bs old =
    omega (arith, length-append bs (drop (0 + length bs) old), length-drop (0 + length bs) old)

pub store_read-SegmentFits :
    (bs : List ℕ) (b : Buffer)
    → SegmentFits b
    → length bs ≤ b.bufsize
    → SegmentFits (store_read bs b)
store_read-SegmentFits bs b fits h = record {
  filled = omega (arith, length-store_at bs b.bytes, fits.filled);
  held = omega (arith, length-store_at bs b.bytes, fits.held);
  room = fits.room;
}

-- With `inbuf` set to no more than what was just stored.
pub count_read-SegmentFits :
    (bs : List ℕ) (n : ℕ) (b : Buffer)
    → SegmentFits b
    → length bs ≤ b.bufsize
    → n ≤ length bs
    → SegmentFits (record (store_read bs b) { inbuf = n })
count_read-SegmentFits bs n b fits h le = record {
  filled = omega (arith, length-store_at bs b.bytes);
  held = omega (arith, length-store_at bs b.bytes, fits.held);
  room = fits.room;
}

-- The connection: a name for its side, a window with room for a `time_t`, at most so much left to
-- read, and segments that fit.
pub record IsFit (most : ℕ) (c : Conn) : Type 0 where
  pub header : c.env.header_type < 2
  pub window : 8 ≤ c.cli.window
  pub left : weight c.sock.inbox ≤ most
  pub segments : AllFit c.pack.data_section
