-- ===== src/Manage/Request/Exchange.antt =====
-- Two ends of a connection: one sends a request, the other answers it in `process_request`, and
-- the first takes the answer in its own.
use Prim.Native.String.{String}
use mathlib.Core.List.{append-nil}
use chopserver.Base.{
  ℕ, ◌*◌, ◌<◌, ◌≤◌, ◌≡◌, arith, some, take, length-take, refl, ap, sym, ◌∙◌, inl, inr, ℤ, pos, List,
  [], ◌∷◌, ◌++◌, length, drop, drop_append, true, if◌then◌else◌, ◌==◌, Bool-cases,
}
use chopserver.Structs.{Ref, cancel}
use chopserver.Machine.{Arrival, Conn, M, Run, ok, and_then}
use chopserver.Machine.Leads.{Returns, gives, Returns-bind, Returns-mono}
use chopserver.Data.Transfer.Rounds.{stream}
use chopserver.Packet.Sending.{write_dataless, write_datapack}
use chopserver.Packet.Sending.Exact.{IsQuiet, after_call, write_dataless-ok, write_datapack-ok}
use chopserver.Packet.Receiving.Exact.{HasTag}
use chopserver.Manage.Request.{process_request, is_client_status}
use chopserver.Manage.Request.Asks.{idle-Answered, wakeup-Answered, escape-Answered}
use chopserver.Manage.Request.Texts.{TextTaken, process_request-apart}
use chopserver.Manage.Request.Replies.{
  IsConfirmable, wake, sleep, leave, acknowledge-Answered, neg_acknowledge-Answered,
}

-- What a call has sent.
abbrev pub new_bytes : (before after : Conn) → List ℕ
new_bytes before after = drop (length before.sock.sent) after.sock.sent

-- How what an end has sent comes to the other: in one arrival, or the header in one and what follows
-- it in another, as `write_packet` wrote them.
pub data Passing : Type 0 where
  at_once header_first : Passing

abbrev pub arrivals : Passing → List ℕ → List Arrival
arrivals at_once bs = stream bs []
arrivals header_first bs = stream (take 4 bs) (stream (drop 4 bs) [])

abbrev pub deliver_as : Passing → List ℕ → Conn → Conn
deliver_as p bs c = record c { sock = record c.sock { inbox = arrivals p bs } }

-- All in one arrival.
abbrev pub deliver : List ℕ → Conn → Conn
deliver bs c = deliver_as at_once bs c

-- `a` makes a call that sends, `b` takes what was sent, and `a` takes what `b` has answered. The
-- run ends in the state of `a`, and returns the status of its request and the state of `b`.
unfoldable pub exchange_as : Passing → (send : M ℤ) → (a b : Conn) → Run (ℤ × Conn)
exchange_as p send a b = and_then (send a) λ _ a₁.
    and_then (process_request Ref.here Ref.here (deliver_as p (new_bytes a a₁) b)) λ _ b₁.
      and_then (process_request Ref.here Ref.here (deliver (new_bytes b b₁) a₁))
        λ r a₂. ok (r, b₁) a₂

abbrev pub exchange : (send : M ℤ) → (a b : Conn) → Run (ℤ × Conn)
exchange send a b = exchange_as at_once send a b

exchange-Returns :
    {P : ℤ → Conn → Type 0} {Q : Conn → Type 0} (p : Passing) (send : M ℤ) (n : ℕ)
    (bs reply : List ℕ) (a b : Conn)
    → send a ≡ ok (pos 0) (after_call a n bs)
    → Returns
        (λ r b'. Q b' × (b'.sock.sent ≡ b.sock.sent ++ reply))
        (process_request Ref.here Ref.here (deliver_as p bs b))
    → Returns P (process_request Ref.here Ref.here (deliver reply (after_call a n bs)))
    → Returns (λ res a'. P res.0 a' × Q res.1) (exchange_as p send a b)
unfolding exchange_as and_then
exchange-Returns p send n bs reply a b sends asked taken = rw sends (
    rw (drop_append a.sock.sent bs) (
      Returns-bind asked λ _ b₁ h.
        let news : new_bytes b b₁ ≡ reply =
          ap (λ l. drop (length b.sock.sent) l) h.1 ∙ drop_append b.sock.sent reply in
        rw news (Returns-bind taken λ r a₂ q. gives (q, h.0))))

-- Both ends have memory, write without failures, and print under a header that there is.
pub record AreReady (t u : String) (a b : Conn) : Type 0 where
  pub quiet_a : IsQuiet a
  pub quiet_b : IsQuiet b
  pub tag_a : HasTag a t
  pub tag_b : HasTag b u

deliver-IsQuiet : (bs : List ℕ) (c : Conn) → IsQuiet c → IsQuiet (deliver bs c)
deliver-IsQuiet bs c q = record { memory = q.memory; writes = q.writes }

asking-IsQuiet :
    (n : ℕ) (bs reply : List ℕ) (c : Conn) → IsQuiet c → IsQuiet (deliver reply (after_call c n bs))
asking-IsQuiet n bs reply c q = record { memory = q.memory; writes = q.writes }

-- Where both ends have memory and write without failures, a request to sleep and its answer put
-- both ends to sleep if the one that is asked was awake, and leave both incoming flags otherwise;
-- the requester's `process_request` returns 0.
pub exchange-idle :
    (t u : String) (a b : Conn)
    → AreReady t u a b
    → Returns
        (λ res a'.
          (res.0 ≡ pos 0)
          × (a'.cli.inc_flag ≡ (if b.cli.inc_flag == 0 then 22 else a.cli.inc_flag))
          × (res.1.cli.inc_flag ≡ (if b.cli.inc_flag == 0 then 22 else b.cli.inc_flag)))
        (exchange (write_dataless Ref.here 0 22 0 0) a b)
unfolding stream
exchange-idle t u a b ready =
    let bs : List ℕ = 0 ∷ 22 ∷ 0 ∷ 0 ∷ [] in
    let asked =
      idle-Answered u [] [] (deliver bs b) (deliver-IsQuiet bs b ready.quiet_b) ready.tag_b refl in
    elim (Bool-cases (b.cli.inc_flag == 0)) [
      | inl granted ↦
          let reply : List ℕ = 0 ∷ 6 ∷ 22 ∷ 0 ∷ [] in
          rw granted (
            Returns-mono
              (exchange-Returns at_once (write_dataless Ref.here 0 22 0 0) 1 bs reply a b
                (write_dataless-ok 0 22 0 0 a ready.quiet_a)
                (Returns-mono (rw granted at asked) λ r b1 k. (k.1.inc_flag, k.1.sent))
                (acknowledge-Answered t 22 0 [] [] (deliver reply (after_call a 1 bs)) sleep
                  (asking-IsQuiet 1 bs reply a ready.quiet_a) ready.tag_a refl))
              λ res a' h. (h.0.0, h.0.1.inc_flag, h.1))
      | inr refused ↦
          let reply : List ℕ = 0 ∷ 21 ∷ 22 ∷ 0 ∷ [] in
          rw refused (
            Returns-mono
              (exchange-Returns at_once (write_dataless Ref.here 0 22 0 0) 1 bs reply a b
                (write_dataless-ok 0 22 0 0 a ready.quiet_a)
                (Returns-mono (rw refused at asked) λ r b1 k. (k.1.inc_flag, k.1.sent))
                (neg_acknowledge-Answered t 22 0 [] [] (deliver reply (after_call a 1 bs)) sleep
                  (asking-IsQuiet 1 bs reply a ready.quiet_a) ready.tag_a refl))
              λ res a' h. (h.0.0, h.0.1.inc_flag, h.1))
    ]

-- Where both ends have memory and write without failures, a request to wake and its answer wake
-- both ends if the one that is asked was asleep, and leave both incoming flags otherwise; the
-- requester's `process_request` returns 0.
pub exchange-wakeup :
    (t u : String) (a b : Conn)
    → AreReady t u a b
    → Returns
        (λ res a'.
          (res.0 ≡ pos 0)
          × (a'.cli.inc_flag ≡ (if b.cli.inc_flag == 22 then 0 else a.cli.inc_flag))
          × (res.1.cli.inc_flag ≡ (if b.cli.inc_flag == 22 then 0 else b.cli.inc_flag)))
        (exchange (write_dataless Ref.here 0 7 0 0) a b)
unfolding stream
exchange-wakeup t u a b ready =
    let bs : List ℕ = 0 ∷ 7 ∷ 0 ∷ 0 ∷ [] in
    let asked =
      wakeup-Answered u [] [] (deliver bs b) (deliver-IsQuiet bs b ready.quiet_b) ready.tag_b
        refl in
    elim (Bool-cases (b.cli.inc_flag == 22)) [
      | inl granted ↦
          let reply : List ℕ = 0 ∷ 6 ∷ 7 ∷ 0 ∷ [] in
          rw granted (
            Returns-mono
              (exchange-Returns at_once (write_dataless Ref.here 0 7 0 0) 1 bs reply a b
                (write_dataless-ok 0 7 0 0 a ready.quiet_a)
                (Returns-mono (rw granted at asked) λ r b1 k. (k.1.inc_flag, k.1.sent))
                (acknowledge-Answered t 7 0 [] [] (deliver reply (after_call a 1 bs)) wake
                  (asking-IsQuiet 1 bs reply a ready.quiet_a) ready.tag_a refl))
              λ res a' h. (h.0.0, h.0.1.inc_flag, h.1))
      | inr refused ↦
          let reply : List ℕ = 0 ∷ 21 ∷ 7 ∷ 0 ∷ [] in
          rw refused (
            Returns-mono
              (exchange-Returns at_once (write_dataless Ref.here 0 7 0 0) 1 bs reply a b
                (write_dataless-ok 0 7 0 0 a ready.quiet_a)
                (Returns-mono (rw refused at asked) λ r b1 k. (k.1.inc_flag, k.1.sent))
                (neg_acknowledge-Answered t 7 0 [] [] (deliver reply (after_call a 1 bs)) wake
                  (asking-IsQuiet 1 bs reply a ready.quiet_a) ready.tag_a refl))
              λ res a' h. (h.0.0, h.0.1.inc_flag, h.1))
    ]

-- Where both ends have memory and write without failures, a request to leave and its answer make
-- both ends ones that `is_client_status` finds closing, whatever their flags were before; the
-- requester's `process_request` returns 0.
pub exchange-escape :
    (t u : String) (a b : Conn)
    → AreReady t u a b
    → Returns
        (λ res a'.
          (res.0 ≡ pos 0)
          × (is_client_status Ref.here a'.cli (pos cancel) ≡ true)
          × (is_client_status Ref.here res.1.cli (pos cancel) ≡ true))
        (exchange (write_dataless Ref.here 0 27 0 0) a b)
unfolding stream is_client_status
exchange-escape t u a b ready =
    let bs : List ℕ = 0 ∷ 27 ∷ 0 ∷ 0 ∷ [] in
    let reply : List ℕ = 0 ∷ 6 ∷ 27 ∷ 0 ∷ [] in
    Returns-mono
      (exchange-Returns {Q = λ d. (d.cli.inc_flag ≡ 24) × (d.cli.out_flag ≡ 24)} at_once
        (write_dataless Ref.here 0 27 0 0) 1 bs reply a b
        (write_dataless-ok 0 27 0 0 a ready.quiet_a)
        (Returns-mono
          (escape-Answered u [] [] (deliver bs b) (deliver-IsQuiet bs b ready.quiet_b) ready.tag_b
            refl)
          λ r b1 k. ((k.1.inc_flag, k.1.out_flag), k.1.sent))
        (acknowledge-Answered t 27 0 [] [] (deliver reply (after_call a 1 bs)) leave
          (asking-IsQuiet 1 bs reply a ready.quiet_a) ready.tag_a refl))
      λ res a' h. (h.0.0, rw (h.0.1.inc_flag, h.0.1.out_flag) refl, rw (h.1.0, h.1.1) refl)

text_arrives :
    (p : Passing) (count width : ℕ) (text : List ℕ)
    → (with_header : List ℕ) × (later : List Arrival) × (arrivals p (0 ∷ 2 ∷ count ∷ width ∷ text)
        ≡ stream (0 ∷ 2 ∷ count ∷ width ∷ with_header) later)
      × (stream with_header later ≡ stream (text ++ []) [])
unfolding stream
text_arrives at_once count width text =
    (text, [], refl, ap (λ l. stream l []) (sym (append-nil text)))
text_arrives header_first count width text =
    ([], stream text [], refl, ap (λ l. stream l []) (sym (append-nil text)))

-- Where both ends have memory and write without failures and the receiving end has a positive
-- window, a text of `count` times `width` bytes that is sent with `write_datapack`, and that comes in
-- one arrival with its header or in one behind it, is handed to `printf` by the other end in full and
-- in order, and confirmed; neither incoming flag changes, and the sender's `process_request` on the
-- confirmation, which comes in one arrival, returns 0. A text that came in more parts would be
-- refused where a part is shorter than the window.
pub exchange-text :
    (p : Passing) (t u : String) (count width : ℕ) (buf : List ℕ) (a b : Conn)
    → AreReady t u a b
    → 0 < b.cli.window
    → 0 < count * width
    → count * width ≤ length buf
    → Returns
        (λ res a'.
          ((res.0 ≡ pos 0) × (a'.cli.inc_flag ≡ a.cli.inc_flag))
          × TextTaken
              (deliver_as p (0 ∷ 2 ∷ count ∷ width ∷ take (count * width) buf) b)
              u
              (take (count * width) buf)
              []
              res.1)
        (exchange_as p
          (write_datapack Ref.here 0 2 count width (some buf) (pos (count * width)))
          a
          b)
unfolding stream
exchange-text p t u count width buf a b ready w some_text fits =
    let text = take (count * width) buf in
    let bs : List ℕ = 0 ∷ 2 ∷ count ∷ width ∷ text in
    let reply : List ℕ = 0 ∷ 6 ∷ 2 ∷ 0 ∷ [] in
    let len : length text ≡ count * width = ground (arith, length-take (count * width) buf) in
    let (with_header, later, comes, follows) = text_arrives p count width text in
    exchange-Returns p _ 3 bs reply a b
      (write_datapack-ok 0 2 count width (count * width) buf a some_text fits ready.quiet_a)
      (Returns-mono
        (process_request-apart u count width text with_header [] [] later (deliver_as p bs b)
          (record { memory = ready.quiet_b.memory; writes = ready.quiet_b.writes }) ready.tag_b w
          (omega (arith, len)) (sym len) comes follows)
        λ r b1 k. (k.1, k.1.sent))
      (Returns-mono
        (acknowledge-Answered t 2 0 [] [] (deliver reply (after_call a 3 bs)) IsConfirmable.text
          (asking-IsQuiet 3 bs reply a ready.quiet_a) ready.tag_a refl)
        λ r a2 k. (k.0, k.1.inc_flag))
