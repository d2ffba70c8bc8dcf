-- ===== src/Packet/Receiving/Long.antt =====
-- `read_long_text` takes a text of unknown length, up to the symbol that ends it.
use mathlib.Core.List.{append-nil, append_assoc}
use chopserver.Base.{
  ℕ, zero, suc, ◌+◌, ◌-◌, ◌^◌, ◌≤◌, ◌<◌, ◌≡◌, refl, ap, ◌∙◌, inl, inr, ℤ, pos, negsuc, is_neg, List,
  [], ◌∷◌, ◌++◌, some, length, take, drop, take_all, take_append, take-append-drop, take_within,
  drop_within, take_past, length-append, length-take, length-drop, true, false, ltb, leb, ◌==◌,
  Bool-cases, if◌then◌else◌, arith,
}
use chopserver.Structs.{Ref, Buffer}
use chopserver.Machine.{
  Arrival, bytes, weight, Socket, done, read_socket, receive_from, Conn, ok, pure, gets, unless_neg,
  ◌>>=◌,
}
use chopserver.Machine.Leads.{Returns, gives, Returns-mono}
use chopserver.Packet.Utility.{link_at_end, store_at_start}
use chopserver.Data.Transfer.{set_received, store_read}
use chopserver.Data.Transfer.Writing.{payload}
use chopserver.Data.Transfer.Rounds.{
  stream, append_received-ok, payload-link_at_end, update_last-link_at_end,
}
use chopserver.Data.Scan.{buf_contains_symbol}
use chopserver.Data.Scan.Lacks.{
  lacks, lacks-take, lacks-drop, buf_contains_symbol-hit, buf_contains_symbol-miss,
}
use chopserver.Packet.Receiving.{read_long_text, long_text_loop, long_round, finish_long_round}

-- What is left of an arrival.
stream-drop :
    (n : ℕ) (bs : List ℕ) (rest : List Arrival)
    → (if leb (length bs) n then rest else bytes (drop n bs) ∷ rest) ≡ stream (drop n bs) rest
unfolding stream
stream-drop zero [] rest = refl
stream-drop zero (b ∷ bs) rest = ground arith
stream-drop (suc n) [] rest = ground arith
stream-drop (suc n) (b ∷ bs) rest =
    let same : leb (suc (length bs)) (suc n) ≡ leb (length bs) n = ground arith in
    rw same (stream-drop n bs rest)

-- A read of some of what has come, or all of it.
read_socket-arrival :
    (n : ℕ) (all : List ℕ) (rest : List Arrival) (s : Socket)
    → 0 < length all
    → s.inbox ≡ stream all rest
    → read_socket n s ≡ (done (take n all), record s { inbox = stream (drop n all) rest })
unfolding read_socket receive_from stream
read_socket-arrival n [] rest s h e = absurd (omega arith)
read_socket-arrival n (b ∷ bs) rest s h e =
    rw (e, receive_from)
      (ap (λ l. (done (take n (b ∷ bs)), record s { inbox = l })) (stream-drop n (b ∷ bs) rest))

-- The connection after a round that has read `bs` and keeps the first `kept` of them.
abbrev after_long : Conn → (kept : ℕ) → List ℕ → List Arrival → Conn
after_long c kept bs inbox = record c {
  sock = record c.sock { inbox = inbox };
  pack = record c.pack {
    data_section =
        link_at_end c.pack.data_section
          (record { bytes = bs; inbuf = kept; bufsize = c.cli.window });
    datalen = c.pack.datalen + 1;
  };
  env = record c.env { allocated = c.env.allocated + 2 };
}

-- What a round starts from: `got` is what the read brings, and `left` what it leaves.
record IsRound (total : ℕ) (got : List ℕ) (left : List Arrival) (c : Conn) : Type 0 where
  memory : c.env.mallocs ≡ []
  positive : 0 < c.cli.window
  some_bytes : 0 < length got
  in_range : total + length got < 2 ^ 31
  reads :
      (s : Socket)
      → s.inbox ≡ c.sock.inbox
      → read_socket c.cli.window s ≡ (done got, record s { inbox = left })

hit-ok :
    (fuel total k : ℕ) (got : List ℕ) (left : List Arrival) (c : Conn)
    → IsRound total got left c
    → buf_contains_symbol (some got) (pos (length got)) 3 ≡ some (pos k)
    → long_text_loop (suc fuel) total c ≡ ok (pos (total + length got)) (after_long c k got left)
unfolding long_text_loop long_round finish_long_round ◌>>=◌ unless_neg set_received gets pure
hit-ok fuel total k got left c r stop =
    let fresh : Buffer = record { bytes = []; inbuf = 0; bufsize = c.cli.window } in
    let filled : (length got == 0) ≡ false = ground (arith, r.some_bytes) in
    let small : ltb (total + length got) (2 ^ 31) ≡ true = ground (arith, r.in_range) in
    rw (append_received-ok c.cli.window c r.positive r.memory) (
      rw (r.reads c.sock refl) (
        rw (filled, stop, small)
          (rw (update_last-link_at_end (store_read got) c.pack.data_section fresh)
            (rw (update_last-link_at_end _ c.pack.data_section _, store_at_start got) refl))))

miss-ok :
    (fuel total : ℕ) (got : List ℕ) (left : List Arrival) (c : Conn)
    → IsRound total got left c
    → buf_contains_symbol (some got) (pos (length got)) 3 ≡ some (negsuc 1)
    → long_text_loop (suc fuel) total c
      ≡ long_text_loop fuel (total + length got) (after_long c (length got) got left)
unfolding long_text_loop long_round finish_long_round ◌>>=◌ unless_neg set_received gets pure
miss-ok fuel total got left c r stop =
    let fresh : Buffer = record { bytes = []; inbuf = 0; bufsize = c.cli.window } in
    let filled : (length got == 0) ≡ false = ground (arith, r.some_bytes) in
    let small : ltb (total + length got) (2 ^ 31) ≡ true = ground (arith, r.in_range) in
    rw (append_received-ok c.cli.window c r.positive r.memory) (
      rw (r.reads c.sock refl) (
        rw (filled, stop, small)
          (rw (update_last-link_at_end (store_read got) c.pack.data_section fresh)
            (rw (update_last-link_at_end _ c.pack.data_section _, store_at_start got) refl))))

arrival-IsRound :
    (total : ℕ) (all : List ℕ) (rest : List Arrival) (c : Conn)
    → c.env.mallocs ≡ []
    → 0 < c.cli.window
    → 0 < length all
    → total + length all < 2 ^ 31
    → c.sock.inbox ≡ stream all rest
    → IsRound total (take c.cli.window all) (stream (drop c.cli.window all) rest) c
arrival-IsRound total all rest c m w some_bytes small e = record {
  memory = m;
  positive = w;
  some_bytes = omega (arith, length-take c.cli.window all);
  in_range = omega (arith, length-take c.cli.window all);
  reads = λ s same. read_socket-arrival c.cli.window all rest s some_bytes (same ∙ e);
}

-- The text stands behind what the packet held, and the client and what was sent are as they were.
pub record HasLong (c : Conn) (text : List ℕ) (r : ℤ) (c' : Conn) : Type 0 where
  pub succeeds : is_neg r ≡ false
  pub body : payload c'.pack.data_section ≡ payload c.pack.data_section ++ text
  pub client : c'.cli ≡ c.cli
  pub sent : c'.sock.sent ≡ c.sock.sent

long_text_loop-HasLong :
    (fuel total : ℕ) (text more : List ℕ) (rest : List Arrival) (c : Conn)
    → c.env.mallocs ≡ []
    → 0 < c.cli.window
    → lacks 3 text ≡ true
    → length text < fuel
    → total + length (text ++ 3 ∷ more) < 2 ^ 31
    → c.sock.inbox ≡ stream (text ++ 3 ∷ more) rest
    → Returns (HasLong c text) (long_text_loop fuel total c)
long_text_loop-HasLong zero total text more rest c m w l enough small e = absurd (omega arith)
long_text_loop-HasLong (suc fuel) total text more rest c m w l enough small e =
    let all : List ℕ = text ++ 3 ∷ more in
    let sum = length-append text (3 ∷ more) in
    let r = arrival-IsRound total all rest c m w (omega (arith, sum)) small e in
    elim (Bool-cases (ltb (length text) c.cli.window)) [
      | inl short ↦
          let t = take (c.cli.window - length text - 1) more in
          let p : take c.cli.window all ≡ text ++ 3 ∷ t =
            take_past c.cli.window text more 3 (ground arith) in
          rw
            (hit-ok fuel total (length text) (take c.cli.window all) _ c r
              (rw p (buf_contains_symbol-hit 3 text t l)))
            (gives (record {
              succeeds = refl;
              body =
                  payload-link_at_end c.pack.data_section _
                  ∙ ap (λ l. payload c.pack.data_section ++ l)
                      (append-nil (take (length text) (take c.cli.window all))
                        ∙ ap (λ l. take (length text) l) p
                        ∙ take_append text (3 ∷ t));
              client = refl;
              sent = refl;
            }))
      | inr long ↦
          let within : c.cli.window ≤ length text = ground arith in
          let p = take_within c.cli.window text (3 ∷ more) within in
          let d = drop_within c.cli.window text (3 ∷ more) within in
          let got = take c.cli.window all in
          let some_text : 0 < length (take c.cli.window text) =
            omega (arith, length-take c.cli.window text) in
          let stop : buf_contains_symbol (some got) (pos (length got)) 3 ≡ some (negsuc 1) = rw p (
            buf_contains_symbol-miss 3 (take c.cli.window text) (lacks-take 3 c.cli.window text l)
              some_text) in
          rw (miss-ok fuel total got _ c r stop) (
            Returns-mono
              (long_text_loop-HasLong fuel _ (drop c.cli.window text) more rest _ m w
                (lacks-drop 3 c.cli.window text l) (omega (arith, length-drop c.cli.window text))
                (omega (
                  arith,
                  sum,
                  length-take c.cli.window all,
                  length-drop c.cli.window text,
                  length-append (drop c.cli.window text) (3 ∷ more),
                ))
                (ap (λ l. stream l rest) d))
              λ r c' h. record {
                succeeds = h.succeeds;
                body =
                    h.body
                    ∙ ap (λ l. l ++ drop c.cli.window text)
                        (payload-link_at_end c.pack.data_section _
                          ∙ ap (λ l. payload c.pack.data_section ++ l)
                              (append-nil _ ∙ take_all (length got) got (omega arith) ∙ p))
                    ∙ append_assoc (payload c.pack.data_section) (take c.cli.window text) _
                    ∙ ap (λ l. payload c.pack.data_section ++ l)
                        (take-append-drop c.cli.window text);
                client = h.client;
                sent = h.sent;
              })
    ]

weight-stream : (bs : List ℕ) (rest : List Arrival) → length bs ≤ weight (stream bs rest)
unfolding stream
weight-stream [] rest = omega arith
weight-stream (b ∷ bs) rest = omega arith

-- Where memory is to be had, the window is positive and the text comes in one arrival with the
-- END_TEXT that ends it and is not in it, and with fewer than 2 ^ 31 bytes in all in this arrival, `read_long_text` does not fail, and the text stands behind what the packet
-- held, completely and without the END_TEXT; the client is as it was and nothing is sent.
pub read_long_text-HasLong :
    (text more : List ℕ) (rest : List Arrival) (c : Conn)
    → c.env.mallocs ≡ []
    → 0 < c.cli.window
    → lacks 3 text ≡ true
    → length (text ++ 3 ∷ more) < 2 ^ 31
    → c.sock.inbox ≡ stream (text ++ 3 ∷ more) rest
    → Returns (HasLong c text) (read_long_text Ref.here Ref.here c)
unfolding read_long_text ◌>>=◌ gets
read_long_text-HasLong text more rest c m w l small e =
    let fuel = weight c.sock.inbox in
    let enough : length text < fuel + 1 =
      omega (
        arith,
        weight-stream (text ++ 3 ∷ more) rest,
        ap weight e,
        length-append text (3 ∷ more),
      ) in
    long_text_loop-HasLong (fuel + 1) 0 text more rest c m w l enough (omega (arith, small)) e
