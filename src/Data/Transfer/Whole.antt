-- ===== src/Data/Transfer/Whole.antt =====
-- `read_data` takes a text that has come apart into segments, and nothing more.
use mathlib.Core.List.{append-nil, append_assoc}
use native.Mathlib.Nat.{div-add-mod, mod-lt}
use chopserver.Base.{
  ℕ, zero, suc, ◌+◌, ◌-◌, ◌*◌, ◌≤◌, ◌<◌, ◌≡◌, refl, ap, sym, ◌∙◌, pos, List, [], ◌∷◌, ◌++◌, arith,
  length, take, drop, length-take, length-drop, take-append-drop, take_all, false, ◌==◌,
}
use chopserver.Structs.{Ref}
use chopserver.Machine.{Arrival, Conn, pure, ◌>>=◌}
use chopserver.Machine.Leads.{Returns, gives, Returns-mono}
use chopserver.Data.Transfer.{smaller, read_data_loop, read_data, buffers_for}
use chopserver.Data.Transfer.Writing.{payload}
use chopserver.Data.Transfer.Rounds.{
  stream, round-ok, after_round, payload-link_at_end, filled_segment,
}

-- The outcome of reading `text`, when `left` is left to read: it stands behind what the packet
-- held, in `count` more segments, and the rest of the connection is as it was.
pub record HasRead (c : Conn) (text : List ℕ) (count : ℕ) (left : List Arrival) (c' : Conn)
    : Type 0 where
  pub inbox : c'.sock.inbox ≡ left
  pub body : payload c'.pack.data_section ≡ payload c.pack.data_section ++ text
  pub segments : c'.pack.datalen ≡ c.pack.datalen + count
  pub header :
      (c'.pack.head ≡ c.pack.head)
      × (c'.pack.status ≡ c.pack.status)
      × (c'.pack.control1 ≡ c.pack.control1)
      × (c'.pack.control2 ≡ c.pack.control2)
  pub client : c'.cli ≡ c.cli
  pub sent : c'.sock.sent ≡ c.sock.sent
  pub writes : c'.sock.accepts ≡ c.sock.accepts
  pub memory : c'.env.mallocs ≡ c.env.mallocs
  pub shown : c'.env.shown ≡ c.env.shown
  pub header_type : c'.env.header_type ≡ c.env.header_type

pub buffers_for_bounds :
    (remaining w : ℕ)
    → 0 < w
    → (remaining ≤ buffers_for remaining w * w) × (buffers_for remaining w * w < remaining + w)
buffers_for_bounds remaining w positive =
    grind (arith, div-add-mod remaining w, mod-lt remaining positive)

read_data_loop-HasRead :
    (rounds remaining total : ℕ) (body more : List ℕ) (rest : List Arrival) (c : Conn)
    → c.env.mallocs ≡ []
    → 0 < c.cli.window
    → length body ≡ remaining
    → remaining ≤ rounds * c.cli.window
    → rounds * c.cli.window < remaining + c.cli.window
    → c.sock.inbox ≡ stream (body ++ more) rest
    → Returns
        (λ r c'. (r ≡ pos (total + remaining)) × HasRead c body rounds (stream more rest) c')
        (read_data_loop rounds remaining total c)
unfolding read_data_loop pure
read_data_loop-HasRead zero remaining total [] more rest c h w len low high e = gives (
  ground arith,
  record {
    inbox = e;
    body = sym (append-nil (payload c.pack.data_section));
    segments = omega arith;
    header = (refl, refl, refl, refl);
    client = refl;
    sent = refl;
    writes = refl;
    memory = refl;
    shown = refl;
    header_type = refl;
  },
)
read_data_loop-HasRead zero remaining total (b ∷ bs) more rest c h w len low high e =
    absurd (omega arith)
read_data_loop-HasRead (suc rounds) remaining total [] more rest c h w len low high e =
    absurd (omega arith)
read_data_loop-HasRead (suc rounds) remaining total (b ∷ bs) more rest c h w len low high e =
    let n = smaller c.cli.window remaining - 1 in
    let xs = take n bs in
    let ys = drop n bs in
    let n_xs : length xs ≡ n = ground (arith, length-take n bs) in
    let n_ys : length ys ≡ length bs - n = length-drop n bs in
    let fits : smaller c.cli.window remaining ≡ suc (length xs) = ground (arith, n_xs) in
    let again : (take (length xs) xs ++ []) ++ ys ≡ bs =
      ap (λ l. l ++ ys) (append-nil _ ∙ take_all (length xs) xs (omega arith))
      ∙ take-append-drop n bs in
    let bound : suc (length xs) ≤ remaining = ground (arith, fits) in
    let split : xs ++ (ys ++ more) ≡ bs ++ more =
      sym (append_assoc xs ys more) ∙ ap (λ l. l ++ more) (take-append-drop n bs) in
    let c' = after_round c c.cli.window (b ∷ xs) (stream (ys ++ more) rest) in
    rw
      (round-ok rounds b total xs (ys ++ more) rest c remaining h w fits
        (e ∙ ap (λ l. stream (b ∷ l) rest) (sym split)))
      (Returns-mono
        (read_data_loop-HasRead rounds (remaining - suc (length xs)) (total + suc (length xs)) ys
          more rest c' h w (omega (arith, n_ys, n_xs, bound)) (ground arith) (ground arith) refl)
        λ r c'' (result, read). (
          result ∙ ap pos (omega (arith, bound)),
          record {
            inbox = read.inbox;
            body =
                read.body
                ∙ ap (λ l. l ++ ys)
                    (payload-link_at_end c.pack.data_section (filled_segment c.cli.window (b ∷ xs)))
                ∙ append_assoc (payload c.pack.data_section) _ ys
                ∙ ap (λ l. payload c.pack.data_section ++ b ∷ l) again;
            segments = omega (arith, read.segments);
            header = read.header;
            client = read.client;
            sent = read.sent;
            writes = read.writes;
            memory = read.memory;
            shown = read.shown;
            header_type = read.header_type;
          },
        ))

-- Where memory is to be had and the window is positive, `read_data` of the length of a text that
-- has come together with what follows returns that length: the text stands behind what the packet
-- held, in as many new segments as windows are needed, the header and the client are as they were,
-- nothing is sent or printed, and exactly what follows is left to read.
pub read_data-HasRead :
    (text more : List ℕ) (rest : List Arrival) (c : Conn)
    → c.env.mallocs ≡ []
    → 0 < c.cli.window
    → 0 < length text
    → c.sock.inbox ≡ stream (text ++ more) rest
    → Returns
        (λ r c'.
          (r ≡ pos (length text))
          × HasRead c text (buffers_for (length text) c.cli.window) (stream more rest) c')
        (read_data Ref.here Ref.here (pos (length text)) c)
unfolding read_data ◌>>=◌
read_data-HasRead text more rest c h w some_text e =
    let len : (length text == 0) ≡ false = ground arith in
    let win : (c.cli.window == 0) ≡ false = ground arith in
    let b = buffers_for_bounds (length text) c.cli.window w in
    rw (len, win)
      (Returns-mono (read_data_loop-HasRead _ (length text) 0 text more rest c h w refl b.0 b.1 e)
        λ r c' (result, read). (result ∙ ap pos (omega arith), read))
