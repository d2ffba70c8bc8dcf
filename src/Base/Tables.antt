-- ===== src/Base/Tables.antt =====
-- Tests of all the numbers below a bound.
use Prim.Native.Nat.{ℕ, zero, suc, ◌<◌}
use mathlib.Core.Path.{◌≡◌}
use mathlib.Core.Bool.{Bool, true, ◌&&◌}
use mathlib.Core.Logic.{inl, inr}
use native.Mathlib.Omega.{arith}
use chopserver.Base.Tests.{◌==◌, ==_iff, Bool-cases}

pub &&-true : (a b : Bool) → (a && b) ≡ true → (a ≡ true) × (b ≡ true)
&&-true a b h = ground arith

-- A test of every byte up to a bound, and what it says of one of them.
unfoldable pub passes : (test : ℕ → Bool) (bound : ℕ) → Bool
passes test zero = true
passes test (suc top) = passes test top && test top

pub passes-lt :
    (test : ℕ → Bool) (bound byte : ℕ) → byte < bound → passes test bound ≡ true → test byte ≡ true
unfolding passes
passes-lt test zero byte low all = absurd (omega arith)
passes-lt test (suc top) byte low all =
    let (lower, here) = &&-true (passes test top) (test top) all in
    elim (Bool-cases (byte == top)) [
      | inl last ↦ rw ((==_iff byte top).0 last) here
      | inr before ↦ passes-lt test top byte (ground arith) lower
    ]
