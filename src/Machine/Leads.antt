-- ===== src/Machine/Leads.antt =====
-- Where a run may end: what it returns, with a postcondition, or undefined behaviour; but never
-- because the fuel was too little.
use chopserver.Base.{◌≡◌, refl}
use chopserver.Machine.{Conn, Fault, Run, ok, fault, out_of_fuel, M, and_then}

pub data Leads {A : Type 0} (P : A → Conn → Type 0) : Run A → Type 0 where
  returns : {a : A} {c : Conn} → P a c → Leads P (ok a c)
  faults : {f : Fault} → Leads P (fault f)

module _ {A : Type 0} {P : A → Conn → Type 0} where
  pub Leads-bind :
      {B : Type 0} {Q : B → Conn → Type 0} {r : Run A} {k : A → M B}
      → Leads P r
      → ((a : A) (c : Conn) → P a c → Leads Q (k a c))
      → Leads Q (and_then r k)
  unfolding and_then
  Leads-bind (returns p) next = next _ _ p
  Leads-bind faults next = faults

  pub Leads-mono :
      {Q : A → Conn → Type 0} {r : Run A}
      → Leads P r
      → ((a : A) (c : Conn) → P a c → Q a c)
      → Leads Q r
  Leads-mono (returns p) weaken = returns (weaken _ _ p)
  Leads-mono faults weaken = faults

  -- The outcome's equation may be used for the postcondition.
  pub Leads-with :
      {Q : A → Conn → Type 0} (r : Run A)
      → Leads P r
      → ((a : A) (c : Conn) → r ≡ ok a c → P a c → Q a c)
      → Leads Q r
  Leads-with (ok a c) (returns p) next = returns (next a c refl p)
  Leads-with (fault f) faults next = faults
  Leads-with out_of_fuel l next = elim l [ ]

module _ {A : Type 0} {P Q : A → Conn → Type 0} where
  pub Leads-both : {r : Run A} → Leads P r → Leads Q r → Leads (λ a c. P a c × Q a c) r
  Leads-both (returns p) (returns q) = returns (p, q)
  Leads-both faults l = faults

-- The run returns, with a postcondition: no undefined behaviour and enough fuel.
pub data Returns {A : Type 0} (P : A → Conn → Type 0) : Run A → Type 0 where
  gives : {a : A} {c : Conn} → P a c → Returns P (ok a c)

module _ {A : Type 0} {P : A → Conn → Type 0} where
  pub Returns-Leads :
      {Q : A → Conn → Type 0} {r : Run A}
      → Returns P r
      → ((a : A) (c : Conn) → P a c → Q a c)
      → Leads Q r
  Returns-Leads (gives p) weaken = returns (weaken _ _ p)

  pub Returns-bind :
      {B : Type 0} {Q : B → Conn → Type 0} {r : Run A} {k : A → M B}
      → Returns P r
      → ((a : A) (c : Conn) → P a c → Returns Q (k a c))
      → Returns Q (and_then r k)
  unfolding and_then
  Returns-bind (gives p) next = next _ _ p

  pub Returns-mono :
      {Q : A → Conn → Type 0} {r : Run A}
      → Returns P r
      → ((a : A) (c : Conn) → P a c → Q a c)
      → Returns Q r
  Returns-mono (gives p) weaken = gives (weaken _ _ p)

module _ {A : Type 0} {P Q : A → Conn → Type 0} where
  -- A run that returns, with what is known of wherever it ends.
  pub Returns-both : {r : Run A} → Returns P r → Leads Q r → Returns (λ a c. P a c × Q a c) r
  Returns-both (gives p) (returns q) = gives (p, q)
