-- ===== src/Fit/Appending.antt =====
-- A new segment is a window long, and what is stored in the last segment fits.
use chopserver.Base.{
  ℕ, ◌≤◌, ◌≡◌, refl, ℤ, pos, is_neg, List, [], Bool-cases, inl, inr, false, arith, length,
}
use chopserver.Structs.{Ref, Buffer, Packet}
use chopserver.Env.{Env}
use chopserver.Memory.{Init, made, refused, init_buffer_struct}
use chopserver.Machine.{Conn, M, ◌>>=◌, unless_neg}
use chopserver.Packet.Utility.{add_segment, append_buffer, last_or, update_last}
use chopserver.Data.Transfer.{no_buffer, received, append_received, store_read}
use chopserver.Stable.Memory.{append_buffer-SameEnv}
use chopserver.Fit.Segments.{
  SegmentFits, AllFit, IsFit, link_at_end-AllFit, last-link_at_end, update_last-AllFit,
  update_last-update_last, store_read-SegmentFits, count_read-SegmentFits,
}
use chopserver.Fit.Rules.{Fits, returned, Fits-bind, Fit-pure}

-- A new segment of `size` bytes, if there is one.
abbrev IsNew : ℕ → Init Buffer → Type 0
IsNew size (refused code) = Unit
IsNew size (made new) = new ≡ record { bytes = []; inbuf = 0; bufsize = size }

init_buffer_struct-IsNew :
    (size : ℕ) (e : Env) → IsNew size (init_buffer_struct Ref.here (pos size) e).0
unfolding init_buffer_struct
init_buffer_struct-IsNew size e = ground arith

-- Where a segment was linked, it is the last one.
record Linked (size : ℕ) (pack : Packet) (r : ℤ) (pack' : Packet) : Type 0 where
  all : AllFit pack.data_section → AllFit pack'.data_section
  room : is_neg r ≡ false → (last_or no_buffer pack'.data_section).bufsize ≡ size

add_segment-Linked :
    (size : ℕ) (pack : Packet) (new : Init Buffer) (e : Env)
    → 8 ≤ size
    → IsNew size new
    → Linked size pack (add_segment pack (new, e)).0 (add_segment pack (new, e)).1
unfolding add_segment
add_segment-Linked size pack (refused code) e long same = record {
  all = λ all. all;
  room = λ r. absurd (ground arith);
}
add_segment-Linked size pack (made new) e long same = record {
  all = λ all.
      link_at_end-AllFit pack.data_section new all
        (rw same (record { filled = omega arith; held = omega arith; room = long }));
  room = λ r. rw (last-link_at_end no_buffer pack.data_section new, same) refl;
}

-- What `append_received` with the client's window leaves.
pub record Appended (most : ℕ) (c : Conn) (r : ℤ) (c' : Conn) : Type 0 where
  pub fits : IsFit most c'
  pub room : is_neg r ≡ false → (received c').bufsize ≡ c.cli.window
  pub sock : c'.sock ≡ c.sock
  pub cli : c'.cli ≡ c.cli

append_buffer-Linked :
    (size : ℕ) (pack : Packet) (e : Env)
    → 8 ≤ size
    → Linked size pack
        (append_buffer Ref.here pack (pos size) e).0
        (append_buffer Ref.here pack (pos size) e).1
unfolding append_buffer
append_buffer-Linked size pack e long =
    add_segment-Linked size pack _ _ long (init_buffer_struct-IsNew size e)

-- The connection after a change of the last segment.
abbrev pub changed : (Buffer → Buffer) → Conn → Conn
changed f c = record c { pack = record c.pack { data_section = update_last f c.pack.data_section } }

module _ (most : ℕ) where
  append_received-Appended :
      (c : Conn) → IsFit most c → Fits (Appended most c) (append_received (pos c.cli.window) c)
  unfolding append_received
  append_received-Appended c h =
      let linked = append_buffer-Linked c.cli.window c.pack c.env h.window in
      let same = append_buffer-SameEnv Ref.here c.pack (pos c.cli.window) c.env in
      returned (record {
        fits = record {
          header = rw same.header_type h.header;
          window = h.window;
          left = h.left;
          segments = linked.all h.segments;
        };
        room = linked.room;
        sock = refl;
        cli = refl;
      })

  changed-IsFit :
      (f : Buffer → Buffer) (c : Conn)
      → IsFit most c
      → (SegmentFits (received c) → SegmentFits (f (received c)))
      → IsFit most (changed f c)
  changed-IsFit f c h change = record {
    header = h.header;
    window = h.window;
    left = h.left;
    segments = update_last-AllFit f no_buffer c.pack.data_section h.segments change;
  }

  pub stored-IsFit :
      (bs : List ℕ) (c : Conn)
      → IsFit most c
      → length bs ≤ (received c).bufsize
      → IsFit most (changed (store_read bs) c)
  stored-IsFit bs c h room =
      changed-IsFit _ c h λ fits. store_read-SegmentFits bs (received c) fits room

  -- After what was read has been stored and counted.
  pub counted-IsFit :
      (bs : List ℕ) (n : ℕ) (c : Conn)
      → IsFit most c
      → length bs ≤ (received c).bufsize
      → n ≤ length bs
      → IsFit most (changed (λ b. record b { inbuf = n }) (changed (store_read bs) c))
  counted-IsFit bs n c h room le =
      rw (update_last-update_last (store_read bs) (λ b. record b { inbuf = n }) c.pack.data_section)
        (changed-IsFit _ c h λ fits. count_read-SegmentFits bs n (received c) fits room le)

  -- What follows an `append_received` that went well may use that the last segment is a window long.
  pub after_append-Fits :
      (f : ℤ → ℤ) (k : ℤ → M ℤ) (c : Conn)
      → IsFit most c
      → ((r : ℤ) (c' : Conn)
          → is_neg r ≡ false
          → Appended most c r c'
          → Fits (λ _. IsFit most) (k r c'))
      → Fits (λ _. IsFit most) (unless_neg (append_received (pos c.cli.window)) f k c)
  unfolding unless_neg ◌>>=◌
  after_append-Fits f k c h next = Fits-bind (append_received-Appended c h) λ r c' app.
      elim (Bool-cases (is_neg r)) [
        | inl bad ↦ rw bad ((Fit-pure most (f r)).at c' app.fits)
        | inr good ↦ rw good (next r c' good app)
      ]
