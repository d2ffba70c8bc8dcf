-- ===== src/Stable/Parsing.antt =====
-- The receiving functions: `parse_header` and what it calls.
use chopserver.Base.{
  ℕ, zero, suc, ◌≤◌, ◌<◌, refl, inl, inr, ℤ, pos, negsuc, not, if◌then◌else◌, is_zero, arith,
}
use chopserver.Structs.{Ref}
use chopserver.Machine.{Conn, M, weight, pure, set_client, ◌>>=◌}
use chopserver.Machine.Leads.{Leads, returns, Leads-bind, Leads-mono}
use chopserver.Packet.Receiving.{
  parse_text, answer, parse_enquiry, set_inc_flag, parse_acknowledge, parse_wakeup,
  parse_neg_acknowledge, parse_idle, parse_escape, long_header_loop, parse_long_header, then_print,
  parse_header,
}
use chopserver.Stable.Rules.{
  IsStable, Within, Within-trans, Tame, Tame-bind, Tame-if, Tame-pure, Tame-gets, Tame-unless_neg,
  Tame-dataless, Tame-wordpack, Tame-mark_closed,
}
use chopserver.Stable.Reading.{
  ReadsHeader, read_data-Tame, read_header-ReadsHeader, read_long_text-Tame,
}
use chopserver.Stable.Printing.{
  print_text-Tame, print_enquiry-Tame, print_acknowledge-Tame, print_neg_acknowledge-Tame,
  print_wakeup-Tame, print_idle-Tame, print_escape-Tame,
}

module _ {R : Conn → Conn → Type 0} (st : IsStable R) where
  module _ (n : ℕ) where
    parse_text-Tame : (cli pack : Ref) → Tame R n (parse_text cli pack)
    unfolding parse_text
    parse_text-Tame cli pack =
        search
          (
            read_data-Tame st,
            read_long_text-Tame st,
            Tame-dataless st,
            Tame-unless_neg st.order,
            Tame-bind st.order,
            Tame-if st.order,
            Tame-pure st.order,
            Tame-gets st.order,
          )
          depth 14

    answer-Tame : (cli : Ref) (status control1 : ℕ) → Tame R n (answer cli status control1)
    unfolding answer
    answer-Tame cli status control1 =
        search (Tame-dataless st, Tame-unless_neg st.order, Tame-pure st.order)

    parse_enquiry-Tame : (cli pack : Ref) → Tame R n (parse_enquiry cli pack)
    unfolding parse_enquiry
    parse_enquiry-Tame cli pack =
        search
          (
            answer-Tame,
            read_data-Tame st,
            Tame-wordpack st,
            Tame-unless_neg st.order,
            Tame-bind st.order,
            Tame-if st.order,
            Tame-pure st.order,
            Tame-gets st.order,
          )
          depth 14

    set_null-Tame : Tame R n (set_inc_flag 0)
    unfolding set_inc_flag set_client
    set_null-Tame = record {
      at = λ c h. returns (record { shrinks = omega arith; related = st.at_flag 0 c (inl refl) });
    }

    set_idle-Tame : Tame R n (set_inc_flag 22)
    unfolding set_inc_flag set_client
    set_idle-Tame = record {
      at = λ c h. returns (record { shrinks = omega arith; related = st.at_flag 22 c (inr refl) });
    }

    parse_acknowledge-Tame : (cli pack : Ref) → Tame R n (parse_acknowledge cli pack)
    unfolding parse_acknowledge
    parse_acknowledge-Tame cli pack =
        search
          (
            set_null-Tame,
            set_idle-Tame,
            Tame-mark_closed st,
            Tame-bind st.order,
            Tame-if st.order,
            Tame-pure st.order,
            Tame-gets st.order,
          )
          depth 14

    parse_wakeup-Tame : (cli pack : Ref) → Tame R n (parse_wakeup cli pack)
    unfolding parse_wakeup
    parse_wakeup-Tame cli pack =
        search
          (
            set_null-Tame,
            answer-Tame,
            Tame-bind st.order,
            Tame-if st.order,
            Tame-pure st.order,
            Tame-gets st.order,
          )
          depth 8

    parse_neg_acknowledge-Tame : (cli pack : Ref) → Tame R n (parse_neg_acknowledge cli pack)
    unfolding parse_neg_acknowledge
    parse_neg_acknowledge-Tame cli pack =
        search (Tame-bind st.order, Tame-if st.order, Tame-pure st.order, Tame-gets st.order) depth
          12

    parse_idle-Tame : (cli pack : Ref) → Tame R n (parse_idle cli pack)
    unfolding parse_idle
    parse_idle-Tame cli pack =
        search
          (
            set_idle-Tame,
            answer-Tame,
            Tame-bind st.order,
            Tame-if st.order,
            Tame-pure st.order,
            Tame-gets st.order,
          )
          depth 8

    parse_escape-Tame : (cli pack : Ref) → Tame R n (parse_escape cli pack)
    unfolding parse_escape
    parse_escape-Tame cli pack =
        search
          (
            Tame-dataless st,
            Tame-mark_closed st,
            Tame-unless_neg st.order,
            Tame-bind st.order,
            Tame-if st.order,
            Tame-pure st.order,
          )
          depth 8

    then_print-Tame :
        (parse show : M ℤ) → Tame R n parse → Tame R n show → Tame R n (then_print parse show)
    unfolding then_print
    then_print-Tame parse show hp hs =
        search (hp, hs, Tame-unless_neg st.order, Tame-bind st.order, Tame-pure st.order)

  after_header-Within :
      (n : ℕ) (r : ℤ) (c c' : Conn) (k : M (Unit {0}))
      → weight c.sock.inbox ≤ n
      → ReadsHeader R c r c'
      → ((m : ℕ) → m < n → Tame R m k)
      → Leads (λ _. Within R c) ((if not (is_zero r) then pure tt else k) c')
  unfolding pure
  after_header-Within n (pos zero) c c' k bound read h =
      let less : weight c'.sock.inbox < n = omega (arith, read.1 refl) in
      Leads-mono ((h _ less).at c' (omega arith)) λ _ c'' w. Within-trans st.order read.0 w
  after_header-Within n (pos (suc i)) c c' k bound read h = returns read.0
  after_header-Within n (negsuc i) c c' k bound read h = returns read.0

  -- Each round of an extended header reads a header, so what it parses has less to read.
  long_header_loop-Tame :
      (parse : M ℤ) (cli pack : Ref) (rounds n : ℕ)
      → ((m : ℕ) → m < n → Tame R m parse)
      → Tame R n (long_header_loop parse cli pack rounds)
  unfolding long_header_loop ◌>>=◌
  long_header_loop-Tame parse cli pack zero n h = Tame-pure st.order n tt
  long_header_loop-Tame parse cli pack (suc rounds) n h = record {
    at = λ c bound. Leads-bind (read_header-ReadsHeader st cli pack c) λ r c' read.
        after_header-Within n r c c' _ bound read λ m less.
          Tame-bind st.order m _ _ (h m less) λ status.
            Tame-if st.order m _ _ _ (Tame-pure st.order m tt)
              (long_header_loop-Tame parse cli pack rounds m λ k lt. h k (omega arith));
  }

  parse_long_header-Tame :
      (parse : M ℤ) (cli pack : Ref) (n : ℕ)
      → ((m : ℕ) → m < n → Tame R m parse)
      → Tame R n (parse_long_header parse cli pack)
  unfolding parse_long_header
  parse_long_header-Tame parse cli pack n h =
      let rounds = long_header_loop-Tame parse cli pack in
      Tame-if st.order n _ _ _ (Tame-pure st.order n _) (
        Tame-bind st.order n _ _ (Tame-gets st.order n _)
          λ count. Tame-bind st.order n _ _ (rounds count n h) λ _. Tame-pure st.order n _)

  pub parse_header-Tame :
      (fuel n : ℕ) (cli pack : Ref) → n < fuel → Tame R n (parse_header fuel cli pack)
  unfolding parse_header
  parse_header-Tame zero n cli pack h = absurd (omega arith)
  parse_header-Tame (suc fuel) n cli pack h =
      let extended : Tame R n (parse_long_header (parse_header fuel cli pack) cli pack) =
        parse_long_header-Tame _ cli pack n
          λ m less. parse_header-Tame fuel m cli pack (omega arith) in
      let both = λ (parse show : M ℤ) (hp : Tame R n parse) (hs : Tame R n show).
        then_print-Tame n parse show hp hs in
      Tame-if st.order n _ _ _ (Tame-pure st.order n _) (
        Tame-bind st.order n _ _ (Tame-gets st.order n _) λ status.
          Tame-if st.order n _ _ _ (Tame-pure st.order n _) (
            Tame-if st.order n _ _ _ extended (
              Tame-if st.order n _ _ _
                (both _ _ (parse_text-Tame n cli pack) (print_text-Tame st n cli pack))
                (Tame-if st.order n _ _ _
                  (both _ _ (parse_enquiry-Tame n cli pack) (print_enquiry-Tame st n cli pack))
                  (Tame-if st.order n _ _ _
                    (both _ _ (parse_acknowledge-Tame n cli pack)
                      (print_acknowledge-Tame st n cli pack))
                    (Tame-if st.order n _ _ _
                      (both _ _ (parse_wakeup-Tame n cli pack) (print_wakeup-Tame st n cli pack))
                      (Tame-if st.order n _ _ _
                        (both _ _ (parse_neg_acknowledge-Tame n cli pack)
                          (print_neg_acknowledge-Tame st n cli pack))
                        (Tame-if st.order n _ _ _
                          (both _ _ (parse_idle-Tame n cli pack) (print_idle-Tame st n cli pack))
                          (Tame-if st.order n _ _ _
                            (both _ _ (parse_escape-Tame n cli pack)
                              (print_escape-Tame st n cli pack))
                            (Tame-pure st.order n _))))))))))
