-- ===== src/Manage/Request/Texts.antt =====
-- A text, from its header to the line that shows it and the confirmation that goes back.
use Prim.Native.String.{String}
use mathlib.Core.List.{append_assoc, append-nil}
use chopserver.Base.{
  ℕ, zero, suc, ◌*◌, ◌<◌, ◌≡◌, refl, ap, sym, ◌∙◌, ℤ, pos, List, [], ◌∷◌, ◌++◌, arith, length, true,
  false, ◌&&◌, ◌==◌,
}
use chopserver.Structs.{Ref, Buffer}
use chopserver.Env.{Printed, plain, with_int, with_prefix, print, free}
use chopserver.Machine.{Arrival, Conn, ok, unless_neg, pure, ◌>>=◌, gets}
use chopserver.Machine.Leads.{Returns, gives, Returns-bind}
use chopserver.Data.Transfer.{buffers_for}
use chopserver.Data.Transfer.Writing.{payload}
use chopserver.Data.Transfer.Rounds.{stream}
use chopserver.Data.Transfer.Whole.{HasRead, read_data-HasRead}
use chopserver.Packet.Sending.Exact.{IsQuiet, after_call, write_dataless-ok}
use chopserver.Debug.{printf, print_text, print_segments}
use chopserver.Packet.Receiving.{then_print, parse_header, parse_text}
use chopserver.Packet.Receiving.Exact.{after_print, HasTag, print_prefix-ok}
use chopserver.Manage.Request.{process_request}
use chopserver.Manage.Request.Exact.{
  taken, taken-IsQuiet, process_request-header, free_segments-freed,
}

-- The calls of `printf` that show a data section.
abbrev pub shown_segments : List Buffer → List Printed
shown_segments [] = []
shown_segments (b ∷ bs) = with_prefix "%.*s" b.inbuf b.bytes ∷ shown_segments bs

print_segments-ok :
    (bs : List Buffer) (c : Conn) → print_segments bs c ≡ ok tt (after_print c (shown_segments bs))
unfolding print_segments ◌>>=◌ printf print
print_segments-ok [] c =
    ap (λ l. ok tt (record c { env = record c.env { shown = l } })) (sym (append-nil c.env.shown))
print_segments-ok (b ∷ bs) c =
    rw (print_segments-ok bs (after_print c (with_prefix "%.*s" b.inbuf b.bytes ∷ []))) (
      ap (λ l. ok tt (record c { env = record c.env { shown = l } }))
        (append_assoc c.env.shown (with_prefix "%.*s" b.inbuf b.bytes ∷ []) (shown_segments bs)))

abbrev pub shown_text : (tag : String) (fd : ℤ) → List Buffer → List Printed
shown_text tag fd bs = with_int tag fd ∷ plain ": \"" ∷ shown_segments bs ++ plain "\"\n" ∷ []

append_end {ℓ} :
    {A : Type ℓ} (xs : List A) (a b : A) (ys : List A) (z : A)
    → (((xs ++ a ∷ []) ++ b ∷ []) ++ ys) ++ z ∷ [] ≡ xs ++ (a ∷ b ∷ (ys ++ z ∷ []))
append_end xs a b ys z =
    append_assoc ((xs ++ a ∷ []) ++ b ∷ []) ys (z ∷ [])
    ∙ append_assoc (xs ++ a ∷ []) (b ∷ []) (ys ++ z ∷ [])
    ∙ append_assoc xs (a ∷ []) (b ∷ ys ++ z ∷ [])

print_text-ok :
    (tag : String) (c : Conn)
    → HasTag c tag
    → c.pack.status ≡ 2
    → print_text Ref.here Ref.here c
      ≡ ok (pos 0) (after_print c (shown_text tag c.cli.socket_fd c.pack.data_section))
unfolding print_text ◌>>=◌ printf print gets pure
print_text-ok tag c t e =
    let is_text : (c.pack.status == 2) ≡ true = rw e refl in
    let prefixed = after_print c (with_int tag c.cli.socket_fd ∷ []) in
    rw is_text (
      rw (print_prefix-ok tag c t) (
        rw (print_segments-ok c.pack.data_section (after_print prefixed (plain ": \"" ∷ []))) (
          ap (λ l. ok (pos 0) (record c { env = record c.env { shown = l } }))
            (append_end c.env.shown _ _ (shown_segments c.pack.data_section) _))))

not_both : (k w : ℕ) → 0 < k * w → ((k == 0) && (w == 0)) ≡ false
not_both zero w h = absurd (omega arith)
not_both (suc k) w h = ground arith

parse_text-Returns :
    (text more : List ℕ) (rest : List Arrival) (c : Conn)
    → IsQuiet c
    → 0 < c.cli.window
    → 0 < length text
    → c.pack.control1 * c.pack.control2 ≡ length text
    → c.sock.inbox ≡ stream (text ++ more) rest
    → Returns
        (λ r c'.
          (r ≡ pos 0)
          × ((read : Conn) × HasRead c text
                (buffers_for (length text) c.cli.window)
                (stream more rest)
                read
              × (c' ≡ after_call read 1 (0 ∷ 6 ∷ 2 ∷ 0 ∷ []))))
        (parse_text Ref.here Ref.here c)
unfolding parse_text ◌>>=◌ unless_neg gets pure
parse_text-Returns text more rest c q w some_text len e =
    rw (not_both c.pack.control1 c.pack.control2 (omega (arith, len))) (
      rw len (
        Returns-bind (read_data-HasRead text more rest c q.memory w some_text e)
          λ r read (result, h). rw result (
            rw
              (write_dataless-ok 0 6 2 0 read
                (record { memory = h.memory ∙ q.memory; writes = h.writes ∙ q.writes }))
              (gives (refl, (read, h, refl))))))

-- A text that was taken: the arguments of `printf` hold it, and it is confirmed.
pub record TextTaken (c : Conn) (tag : String) (text : List ℕ) (left : List Arrival) (c' : Conn)
    : Type 0 where
  pub segments : List Buffer
  pub body : payload segments ≡ text
  pub shown : c'.env.shown ≡ c.env.shown ++ shown_text tag c.cli.socket_fd segments
  pub sent : c'.sock.sent ≡ c.sock.sent ++ 0 ∷ 6 ∷ 2 ∷ 0 ∷ []
  pub inbox : c'.sock.inbox ≡ left
  pub inc_flag : c'.cli.inc_flag ≡ c.cli.inc_flag
  pub out_flag : c'.cli.out_flag ≡ 0
  pub memory : c'.env.mallocs ≡ []
  pub writes : c'.sock.accepts ≡ []

-- A text whose header has come before it, or with it.
pub process_request-apart :
    (tag : String) (count width : ℕ) (text with_header more : List ℕ) (rest later : List Arrival)
    (c : Conn)
    → IsQuiet c
    → HasTag c tag
    → 0 < c.cli.window
    → 0 < length text
    → count * width ≡ length text
    → c.sock.inbox ≡ stream (0 ∷ 2 ∷ count ∷ width ∷ with_header) later
    → stream with_header later ≡ stream (text ++ more) rest
    → Returns
        (λ r c'. (r ≡ pos 0) × TextTaken c tag text (stream more rest) c')
        (process_request Ref.here Ref.here c)
unfolding parse_header then_print ◌>>=◌ gets unless_neg pure free
process_request-apart tag count width text with_header more rest later c q t w some_text len e
      follows =
    let c' = taken c 0 2 count width (stream with_header later) in
    process_request-header 0 2 count width with_header later c q e (
      Returns-bind
        (parse_text-Returns text more rest c'
          (taken-IsQuiet c 0 2 count width (stream with_header later) q) w some_text len follows)
        λ r d (result, (read, h, same)).
          rw (result, same)
            (rw
              (print_text-ok tag (after_call read 1 (0 ∷ 6 ∷ 2 ∷ 0 ∷ [])) (rw h.header_type t)
                h.header.1)
              (gives (
                refl,
                rw (free_segments-freed _ _) (record {
                  segments = read.pack.data_section;
                  body = h.body;
                  shown = rw (h.shown, h.client) refl;
                  sent = rw h.sent refl;
                  inbox = h.inbox;
                  inc_flag = rw h.client refl;
                  out_flag = refl;
                  memory = h.memory ∙ q.memory;
                  writes = h.writes ∙ q.writes;
                }),
              ))))

-- Where every `malloc` succeeds, every write is taken whole and the window is positive, a request
-- whose header announces a text of `count` times `width` bytes, which has come with it, returns
-- 0: the bytes are handed to `printf` in full and in order, the text is confirmed, the incoming
-- flag stays, and exactly what follows the text is left to read.
pub process_request-text :
    (tag : String) (count width : ℕ) (text more : List ℕ) (rest : List Arrival) (c : Conn)
    → IsQuiet c
    → HasTag c tag
    → 0 < c.cli.window
    → 0 < length text
    → count * width ≡ length text
    → c.sock.inbox ≡ stream (0 ∷ 2 ∷ count ∷ width ∷ text ++ more) rest
    → Returns
        (λ r c'. (r ≡ pos 0) × TextTaken c tag text (stream more rest) c')
        (process_request Ref.here Ref.here c)
process_request-text tag count width text more rest c q t w some_text len e =
    process_request-apart tag count width text (text ++ more) more rest rest c q t w some_text len e
      refl
