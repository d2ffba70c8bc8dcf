-- ===== src/Fit/Rules.antt =====
-- Where a run on a connection that fits may end, and one rule for each way to build an action.
use chopserver.Base.{ℕ, ◌≡◌, ℤ, is_neg, Bool, true, false, if◌then◌else◌, arith}
use chopserver.Structs.{Ref, Client, Packet}
use chopserver.Env.{Env}
use chopserver.Machine.{
  Conn, Run, ok, fault, out_of_fuel, Fault, names, null_text, indeterminate, M, and_then, pure,
  gets, in_env, set_client, set_packet, read_socket, ◌>>=◌, unless_neg,
}
use chopserver.Machine.Leads.{Returns, gives}
use chopserver.Machine.Reads.{weight-read_socket}
use chopserver.Data.Transfer.{mark_closed}
use chopserver.Packet.Sending.{write_dataless, write_wordpack}
use chopserver.Stable.Rules.{Within}
use chopserver.Stable.Sending.{Sends, dataless-Sends, wordpack-Sends}
use chopserver.Fit.Segments.{AllFit, IsFit}

-- The undefined behaviour in what a request prints: a name that is read outside its table, a name
-- that there is not, and a time of which not all bytes have come.
pub data IsUnprintable : Fault → Type 0 where
  unnamed : IsUnprintable names
  nameless : IsUnprintable null_text
  unset : IsUnprintable indeterminate

-- The run returns with a postcondition, runs out of fuel, or meets undefined behaviour in what it
-- prints; but meets no other undefined behaviour.
pub data Fits {A : Type 0} (P : A → Conn → Type 0) : Run A → Type 0 where
  returned : {a : A} {c : Conn} → P a c → Fits P (ok a c)
  starved : Fits P out_of_fuel
  unprintable : {f : Fault} → IsUnprintable f → Fits P (fault f)

module _ {A : Type 0} {P : A → Conn → Type 0} where
  pub Fits-bind :
      {B : Type 0} {Q : B → Conn → Type 0} {r : Run A} {k : A → M B}
      → Fits P r
      → ((a : A) (c : Conn) → P a c → Fits Q (k a c))
      → Fits Q (and_then r k)
  unfolding and_then
  Fits-bind (returned p) next = next _ _ p
  Fits-bind starved next = starved
  Fits-bind (unprintable u) next = unprintable u

  pub Returns-Fits :
      {Q : A → Conn → Type 0} {r : Run A}
      → Returns P r
      → ((a : A) (c : Conn) → P a c → Q a c)
      → Fits Q r
  Returns-Fits (gives p) weaken = returned (weaken _ _ p)

-- From a connection that fits, `m` leads to one that fits.
pub record Fit {A : Type 0} (most : ℕ) (m : M A) : Type 0 where
  pub at : (c : Conn) → IsFit most c → Fits (λ _. IsFit most) (m c)

module _ (most : ℕ) where
  module _ {A : Type 0} where
    pub Fit-pure : (a : A) → Fit most (pure a)
    unfolding pure
    Fit-pure a = record { at = λ c h. returned h }

    pub Fit-gets : (f : Conn → A) → Fit most (gets f)
    unfolding gets
    Fit-gets f = record { at = λ c h. returned h }

    pub Fit-if : (b : Bool) (m k : M A) → Fit most m → Fit most k → Fit most (if b then m else k)
    Fit-if true m k hm hk = hm
    Fit-if false m k hm hk = hk

    pub Fit-bind :
        {B : Type 0} (m : M A) (k : A → M B)
        → Fit most m
        → ((a : A) → Fit most (k a))
        → Fit most (m >>= k)
    unfolding ◌>>=◌
    Fit-bind m k hm hk = record { at = λ c h. Fits-bind (hm.at c h) λ a c' h'. (hk a).at c' h' }

    -- What is read of the connection may be used.
    pub Fit-gets_bind :
        {B : Type 0} (f : Conn → A) (k : A → M B)
        → ((c : Conn) → IsFit most c → Fits (λ _. IsFit most) (k (f c) c))
        → Fit most (gets f >>= k)
    unfolding ◌>>=◌
    Fit-gets_bind f k h = record { at = h }

    pub Fit-in_env :
        (f : Env → A × Env)
        → ((e : Env) → (f e).1.header_type ≡ e.header_type)
        → Fit most (in_env f)
    unfolding in_env
    Fit-in_env f same = record {
      at = λ c h. returned (record {
        header = rw (same c.env) h.header;
        window = h.window;
        left = h.left;
        segments = h.segments;
      });
    }

  pub Fit-unless_neg :
      (m : M ℤ) (f : ℤ → ℤ) (k : ℤ → M ℤ)
      → Fit most m
      → ((r : ℤ) → Fit most (k r))
      → Fit most (unless_neg m f k)
  unfolding unless_neg
  Fit-unless_neg m f k hm hk = Fit-bind m _ hm λ r. Fit-if (is_neg r) _ _ (Fit-pure (f r)) (hk r)

  pub read-IsFit :
      (n : ℕ) (c : Conn) → IsFit most c → IsFit most (record c { sock = (read_socket n c.sock).1 })
  read-IsFit n c h = record {
    header = h.header;
    window = h.window;
    left = omega (arith, weight-read_socket n c.sock, h.left);
    segments = h.segments;
  }

  pub Fit-set_client :
      (f : Client → Client)
      → ((cli : Client) → (f cli).window ≡ cli.window)
      → Fit most (set_client f)
  unfolding set_client
  Fit-set_client f same = record {
    at = λ c h. returned (record {
      header = h.header;
      window = rw (same c.cli) h.window;
      left = h.left;
      segments = h.segments;
    });
  }

  pub Fit-mark_closed : Fit most mark_closed
  unfolding mark_closed
  Fit-mark_closed = Fit-set_client _ λ cli. ground arith

  pub Fit-set_packet : (p : Packet) → AllFit p.data_section → Fit most (set_packet (λ _. p))
  unfolding set_packet
  Fit-set_packet p all = record {
    at = λ c h.
        returned (record { header = h.header; window = h.window; left = h.left; segments = all });
  }

  Sends-IsFit : (c c' : Conn) → IsFit most c → Within Sends c c' → IsFit most c'
  Sends-IsFit c c' h w = record {
    header = rw w.related.env.header_type h.header;
    window = rw w.related.window h.window;
    left = omega (arith, w.shrinks, h.left);
    segments = rw w.related.pack h.segments;
  }

  pub Fit-dataless :
      (cli : Ref) (head status control1 control2 : ℕ)
      → Fit most (write_dataless cli head status control1 control2)
  Fit-dataless cli hd s a b = record {
    at = λ c h. Returns-Fits (dataless-Sends cli hd s a b c) λ _ c' w. Sends-IsFit c c' h w;
  }

  pub Fit-wordpack :
      (cli : Ref) (head status control1 control2 value : ℕ)
      → Fit most (write_wordpack cli head status control1 control2 value)
  Fit-wordpack cli hd s a b v = record {
    at = λ c h. Returns-Fits (wordpack-Sends cli hd s a b v c) λ _ c' w. Sends-IsFit c c' h w;
  }
