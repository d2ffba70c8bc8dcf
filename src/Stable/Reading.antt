-- ===== src/Stable/Reading.antt =====
-- The functions that read: `read_data`, `read_header` and the reading of a long text.
use chopserver.Base.{
  ℕ, zero, suc, ◌+◌, ◌≤◌, ◌<◌, ◌≡◌, ℤ, pos, List, arith, inl, inr, Bool-cases, ◌==◌, length,
}
use chopserver.Structs.{Ref}
use chopserver.Machine.{scan, Conn, M, weight, read_socket, pure, in_sock, ◌>>=◌, Io, done, failed}
use chopserver.Machine.Leads.{Leads, returns, Leads-bind, Leads-mono}
use chopserver.Machine.Reads.{weight-read_socket, got}
use chopserver.Data.Transfer.{finish_round, read_data_loop, read_data, take_header, read_header}
use chopserver.Data.Transfer.{store_read}
use chopserver.Data.Scan.{buf_contains_symbol}
use chopserver.Packet.Receiving.{finish_long_round, long_round, long_text_loop, read_long_text}
use chopserver.Base.{Option, none, some}
use chopserver.Stable.Rules.{
  IsStable, Within, Tame, Tame-bind, Tame-if, Tame-pure, Tame-gets, Tame-undefined, Tame-unless_neg,
  Tame-append_received, Tame-set_received, Tame-mark_closed, Within-refl, Within-trans,
}

-- A header that is read uses up some of the input.
abbrev pub ReadsHeader : (Conn → Conn → Type 0) → Conn → ℤ → Conn → Type 0
ReadsHeader R c r c' = Within R c c' × (r ≡ pos 0 → weight c'.sock.inbox < weight c.sock.inbox)

module _ {R : Conn → Conn → Type 0} (st : IsStable R) where
  Within-read : (n : ℕ) (c : Conn) → Within R c (record c { sock = (read_socket n c.sock).1 })
  Within-read n c = record {
    shrinks = omega (arith, weight-read_socket n c.sock);
    related = st.at_read n c;
  }

  pub Tame-read : (n size : ℕ) → Tame R n (in_sock (read_socket size))
  unfolding in_sock
  Tame-read n size = record { at = λ c h. returns (Within-read size c) }

  finish_round-Tame :
      (n expected : ℕ) (r : Io (List ℕ)) (next : ℕ → M ℤ)
      → ((k : ℕ) → Tame R n (next k))
      → Tame R n (finish_round expected r next)
  unfolding finish_round
  finish_round-Tame n expected (failed e) next h = Tame-pure st.order n _
  finish_round-Tame n expected (done bs) next h =
      search
        (
          h,
          Tame-bind st.order,
          Tame-if st.order,
          Tame-pure st.order,
          Tame-set_received st,
          Tame-mark_closed st,
        )
        depth 12

  read_data_loop-Tame :
      (n rounds remaining total : ℕ) → Tame R n (read_data_loop rounds remaining total)
  unfolding read_data_loop
  read_data_loop-Tame n zero remaining total = Tame-pure st.order n _
  read_data_loop-Tame n (suc rounds) remaining total =
      Tame-bind st.order n _ _ (Tame-gets st.order n _) λ window.
        Tame-unless_neg st.order n _ _ _ (Tame-append_received st n _) λ _.
          Tame-bind st.order n _ _ (Tame-gets st.order n _) λ receive.
            Tame-bind st.order n _ _ (Tame-read n _)
              λ r. finish_round-Tame n _ r _ λ k. read_data_loop-Tame n rounds _ _

  pub read_data-Tame :
      (n : ℕ) (cli pack : Ref) (remaining : ℤ) → Tame R n (read_data cli pack remaining)
  unfolding read_data
  read_data-Tame n cli pack remaining =
      search
        (
          read_data_loop-Tame,
          Tame-bind st.order,
          Tame-if st.order,
          Tame-pure st.order,
          Tame-gets st.order,
          Tame-undefined st.order,
        )
        depth 12

  take_header-Within :
      (c c' : Conn) (r : Io (List ℕ))
      → Within R c c'
      → weight c'.sock.inbox + got r ≤ weight c.sock.inbox
      → Leads (ReadsHeader R c) (take_header r c')
  unfolding take_header ◌>>=◌
  take_header-Within c c' (failed e) w less = returns (w, λ z. absurd (ground arith))
  take_header-Within c c' (done bs) w less = elim (Bool-cases (length bs == 4)) [
    | inl full ↦ rw full (
        returns (
          Within-trans st.order w (record { shrinks = omega arith; related = st.at_header bs c' }),
          λ _. ground arith,
        ))
    | inr short ↦ rw short (elim (Bool-cases (length bs == 0)) [
      | inl none_left ↦ rw none_left (
          Leads-bind (st.at_closed c')
            λ _ c'' w'. returns (Within-trans st.order w w', λ z. absurd (ground arith)))
      | inr some_left ↦ rw some_left (returns (w, λ z. absurd (ground arith)))
    ])
  ]

  pub read_header-ReadsHeader :
      (cli pack : Ref) (c : Conn) → Leads (ReadsHeader R c) (read_header cli pack c)
  unfolding read_header ◌>>=◌
  read_header-ReadsHeader Ref.null pack c =
      returns (Within-refl st.order c, λ z. absurd (ground arith))
  read_header-ReadsHeader Ref.here Ref.null c =
      returns (Within-refl st.order c, λ z. absurd (ground arith))
  read_header-ReadsHeader Ref.here Ref.here c =
      take_header-Within c _ _ (Within-read 4 c) (weight-read_socket 4 c.sock)

  finish_long_round-Tame :
      (n : ℕ) (bs : List ℕ) (total : ℕ) (stop : Option ℤ) (next : ℕ → M ℤ)
      → ((k : ℕ) → Tame R n (next k))
      → Tame R n (finish_long_round bs total stop next)
  unfolding finish_long_round
  finish_long_round-Tame n bs total none next h = Tame-undefined st.order n scan
  finish_long_round-Tame n bs total (some stop_len) next h =
      search
        (
          h,
          Tame-bind st.order,
          Tame-if st.order,
          Tame-pure st.order,
          Tame-set_received st,
          Tame-undefined st.order,
        )
        depth 12

  -- A round of a long text that goes on leaves less to read.
  long_round-Within :
      (n total : ℕ) (c c' : Conn) (r : Io (List ℕ)) (next : ℕ → M ℤ)
      → Within R c c'
      → weight c'.sock.inbox + got r ≤ weight c.sock.inbox
      → weight c.sock.inbox ≤ n
      → ((k m : ℕ) → m < n → Tame R m (next k))
      → Leads (λ _. Within R c) (long_round total r next c')
  unfolding long_round pure
  long_round-Within n total c c' (failed e) next w less bound h = returns w
  long_round-Within n total c c' (done bs) next w less bound h =
      elim (Bool-cases (length bs == 0)) [
        | inl empty ↦ rw empty (returns w)
        | inr more ↦
            let m = weight c'.sock.inbox in
            let lt : m < n = ground arith in
            let t = Tame-bind st.order m _ _ (Tame-set_received st m (store_read bs)) (λ _.
              finish_long_round-Tame m bs total (buf_contains_symbol (some bs) (pos (length bs)) 3)
                next (λ k. h k m lt)) in
            rw more (Leads-mono (t.at c' (omega arith)) λ _ c'' w'. Within-trans st.order w w')
      ]

  long_text_loop-Tame : (fuel n total : ℕ) → n < fuel → Tame R n (long_text_loop fuel total)
  unfolding long_text_loop ◌>>=◌
  long_text_loop-Tame zero n total h = absurd (omega arith)
  long_text_loop-Tame (suc fuel) n total h =
      Tame-bind st.order n _ _ (Tame-gets st.order n _) λ window.
        Tame-unless_neg st.order n _ _ _ (Tame-append_received st n _) λ _. record {
          at = λ c bound.
              long_round-Within n total c _ _ _ (Within-read window c)
                (weight-read_socket window c.sock) bound
                λ k m lt. long_text_loop-Tame fuel m k (omega arith);
        }

  pub read_long_text-Tame : (n : ℕ) (cli pack : Ref) → Tame R n (read_long_text cli pack)
  unfolding read_long_text ◌>>=◌
  read_long_text-Tame n cli pack = Tame-if st.order n _ _ _ (Tame-pure st.order n _) (record {
    at = λ c bound.
        (long_text_loop-Tame (weight c.sock.inbox + 1) (weight c.sock.inbox) 0 (omega arith)).at c
          (omega arith);
  })
