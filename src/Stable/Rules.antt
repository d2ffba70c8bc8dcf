-- ===== src/Stable/Rules.antt =====
-- The interface, and one rule for each way to build an action.
use chopserver.Base.{ℕ, ◌≤◌, ◌≡◌, ◌⊎◌, ℤ, is_neg, List, Bool, true, false, if◌then◌else◌, arith}
use chopserver.Structs.{Ref, Buffer, null_byte, idle}
use chopserver.Env.{Printed, print}
use chopserver.Machine.{
  Fault, Conn, M, weight, read_socket, pure, gets, undefined, ◌>>=◌, unless_neg,
}
use chopserver.Machine.Leads.{Leads, returns, faults, Leads-bind, Leads-mono}
use chopserver.Data.Transfer.{mark_closed, append_received, set_received, set_header}
use chopserver.Packet.Sending.{write_dataless, write_wordpack}

-- The rest of the input gets no longer, and `R` holds.
pub record Within (R : Conn → Conn → Type 0) (c c' : Conn) : Type 0 where
  pub shrinks : weight c'.sock.inbox ≤ weight c.sock.inbox
  pub related : R c c'

pub record IsPreorder (R : Conn → Conn → Type 0) : Type 0 where
  pub reflexive : (c : Conn) → R c c
  pub transitive : (a b c : Conn) → R a b → R b c → R a c

-- `R` holds over each kind of step that the handlers of a connection are made of.
pub record IsStable (R : Conn → Conn → Type 0) : Type 0 where
  pub order : IsPreorder R
  pub at_read : (n : ℕ) (c : Conn) → R c (record c { sock = (read_socket n c.sock).1 })
  pub at_header : (bs : List ℕ) (c : Conn) → R c (record c { pack = set_header bs c.pack })
  pub at_received : (f : Buffer → Buffer) (c : Conn) → Leads (λ _. Within R c) (set_received f c)
  pub at_append : (size : ℤ) (c : Conn) → Leads (λ _. Within R c) (append_received size c)
  pub at_closed : (c : Conn) → Leads (λ _. Within R c) (mark_closed c)
  pub at_flag :
      (flag : ℕ) (c : Conn)
      → (flag ≡ null_byte) ⊎ (flag ≡ idle)
      → R c (record c { cli = record c.cli { inc_flag = flag } })
  pub at_print : (p : Printed) (c : Conn) → R c (record c { env = print p c.env })
  pub at_dataless :
      (cli : Ref) (head status control1 control2 : ℕ) (c : Conn)
      → Leads (λ _. Within R c) (write_dataless cli head status control1 control2 c)
  pub at_wordpack :
      (cli : Ref) (head status control1 control2 value : ℕ) (c : Conn)
      → Leads (λ _. Within R c) (write_wordpack cli head status control1 control2 value c)

-- From a state with at most `n` left to read, `m` stays within `R`, or is undefined.
pub record Tame {A : Type 0} (R : Conn → Conn → Type 0) (n : ℕ) (m : M A) : Type 0 where
  pub at : (c : Conn) → weight c.sock.inbox ≤ n → Leads (λ _. Within R c) (m c)

module _ {R : Conn → Conn → Type 0} (order : IsPreorder R) where
  pub Within-refl : (c : Conn) → Within R c c
  Within-refl c = record { shrinks = omega arith; related = order.reflexive c }

  pub Within-trans : {a b c : Conn} → Within R a b → Within R b c → Within R a c
  Within-trans {a} {b} {c} h k = record {
    shrinks = omega arith;
    related = order.transitive a b c h.related k.related;
  }

  module _ {A : Type 0} (n : ℕ) where
    pub Tame-pure : (a : A) → Tame R n (pure a)
    unfolding pure
    Tame-pure a = record { at = λ c h. returns (Within-refl c) }

    pub Tame-gets : (f : Conn → A) → Tame R n (gets f)
    unfolding gets
    Tame-gets f = record { at = λ c h. returns (Within-refl c) }

    pub Tame-undefined : (f : Fault) → Tame R n (undefined {A = A} f)
    unfolding undefined
    Tame-undefined f = record { at = λ c h. faults }

    pub Tame-if : (b : Bool) (m k : M A) → Tame R n m → Tame R n k → Tame R n (if b then m else k)
    Tame-if true m k hm hk = hm
    Tame-if false m k hm hk = hk

  module _ {A B : Type 0} (n : ℕ) where
    pub Tame-bind :
        (m : M A) (k : A → M B) → Tame R n m → ((a : A) → Tame R n (k a)) → Tame R n (m >>= k)
    unfolding ◌>>=◌
    Tame-bind m k hm hk = record {
      at = λ c h.
          Leads-bind (hm.at c h)
            λ a c' w. Leads-mono ((hk a).at c' (omega arith)) λ b c'' w'. Within-trans w w';
    }

  module _ (n : ℕ) where
    pub Tame-unless_neg :
        (m : M ℤ) (f : ℤ → ℤ) (k : ℤ → M ℤ)
        → Tame R n m
        → ((r : ℤ) → Tame R n (k r))
        → Tame R n (unless_neg m f k)
    unfolding unless_neg
    Tame-unless_neg m f k hm hk =
        Tame-bind n m _ hm λ r. Tame-if n (is_neg r) _ _ (Tame-pure n (f r)) (hk r)

module _ {R : Conn → Conn → Type 0} (st : IsStable R) (n : ℕ) where
  pub Tame-dataless :
      (cli : Ref) (head status control1 control2 : ℕ)
      → Tame R n (write_dataless cli head status control1 control2)
  Tame-dataless cli hd s a b = record { at = λ c h. st.at_dataless cli hd s a b c }

  pub Tame-wordpack :
      (cli : Ref) (head status control1 control2 value : ℕ)
      → Tame R n (write_wordpack cli head status control1 control2 value)
  Tame-wordpack cli hd s a b v = record { at = λ c h. st.at_wordpack cli hd s a b v c }

  pub Tame-append_received : (size : ℤ) → Tame R n (append_received size)
  Tame-append_received size = record { at = λ c h. st.at_append size c }

  pub Tame-set_received : (f : Buffer → Buffer) → Tame R n (set_received f)
  Tame-set_received f = record { at = λ c h. st.at_received f c }

  pub Tame-mark_closed : Tame R n mark_closed
  Tame-mark_closed = record { at = λ c h. st.at_closed c }
