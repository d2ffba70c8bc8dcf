-- ===== src/Data/Scan/Lacks.antt =====
-- The search for a symbol in a text that lacks it, alone and with the symbol behind it.
use mathlib.Core.List.{append-nil}
use chopserver.Base.{
  ℕ, zero, suc, ◌<◌, ◌≡◌, refl, ap, ◌∙◌, inl, inr, ℤ, pos, neg, List, [], ◌∷◌, ◌++◌, Option, some,
  length, get_elem?, take, drop, length-append, Bool, true, not, ◌&&◌, ◌==◌, ==_iff, Bool-cases,
  &&-true, ltb, arith,
}
use chopserver.Structs.{enoent}
use chopserver.Data.Scan.{buf_contains_symbol}
use chopserver.Data.Scan.First.{IsAbsent, Scanned, found, missing, buf_contains_symbol-Scanned}

unfoldable pub lacks : (symbol : ℕ) → List ℕ → Bool
lacks symbol [] = true
lacks symbol (b ∷ bs) = not (b == symbol) && lacks symbol bs

pub lacks-take :
    (symbol n : ℕ) (bs : List ℕ) → lacks symbol bs ≡ true → lacks symbol (take n bs) ≡ true
unfolding lacks
lacks-take symbol zero bs h = refl
lacks-take symbol (suc n) [] h = refl
lacks-take symbol (suc n) (b ∷ bs) h =
    let (here, later) = &&-true (not (b == symbol)) _ h in
    rw (here, lacks-take symbol n bs later) refl

pub lacks-drop :
    (symbol n : ℕ) (bs : List ℕ) → lacks symbol bs ≡ true → lacks symbol (drop n bs) ≡ true
unfolding lacks
lacks-drop symbol zero bs h = h
lacks-drop symbol (suc n) [] h = refl
lacks-drop symbol (suc n) (b ∷ bs) h =
    let (here, later) = &&-true (not (b == symbol)) _ h in lacks-drop symbol n bs later

lacks-IsAbsent :
    (symbol : ℕ) (bs tail : List ℕ)
    → lacks symbol bs ≡ true
    → IsAbsent (bs ++ tail) symbol (length bs)
unfolding lacks
lacks-IsAbsent symbol [] tail h j less e = absurd (omega arith)
lacks-IsAbsent symbol (b ∷ bs) tail h zero less e =
    let (here, later) = &&-true (not (b == symbol)) _ h in
    let same : b ≡ symbol = cc e in ground (arith, same)
lacks-IsAbsent symbol (b ∷ bs) tail h (suc j) less e =
    let (here, later) = &&-true (not (b == symbol)) _ h in
    lacks-IsAbsent symbol bs tail later j (omega arith) e

get_elem?-append_at : (xs ys : List ℕ) (y : ℕ) → get_elem? (xs ++ y ∷ ys) (length xs) ≡ some y
get_elem?-append_at [] ys y = refl
get_elem?-append_at (x ∷ xs) ys y = get_elem?-append_at xs ys y

first_at :
    (symbol : ℕ) (text tail : List ℕ) {r : Option ℤ}
    → lacks symbol text ≡ true
    → Scanned (text ++ symbol ∷ tail) symbol (length (text ++ symbol ∷ tail)) r
    → r ≡ some (pos (length text))
first_at symbol text tail h (missing e absent) = absurd (
    absent (length text) (omega (arith, length-append text (symbol ∷ tail)))
      (get_elem?-append_at text tail symbol))
first_at symbol text tail h (found i e less at before) = elim (Bool-cases (i == length text)) [
  | inl here ↦ e ∙ ap (λ n. some (pos n)) ((==_iff i (length text)).0 here)
  | inr other ↦ elim (Bool-cases (ltb i (length text))) [
    | inl earlier ↦ absurd (lacks-IsAbsent symbol text (symbol ∷ tail) h i (ground arith) at)
    | inr later ↦
        absurd (before (length text) (ground arith) (get_elem?-append_at text tail symbol))
  ]
]

-- The symbol stands behind the text that lacks it.
pub buf_contains_symbol-hit :
    (symbol : ℕ) (text tail : List ℕ)
    → lacks symbol text ≡ true
    → buf_contains_symbol
        (some (text ++ symbol ∷ tail))
        (pos (length (text ++ symbol ∷ tail)))
        symbol
      ≡ some (pos (length text))
buf_contains_symbol-hit symbol text tail h = first_at symbol text tail h (
    buf_contains_symbol-Scanned (text ++ symbol ∷ tail) _ symbol
      (omega (arith, length-append text (symbol ∷ tail))) (omega arith))

none_in :
    (symbol : ℕ) (text : List ℕ) {r : Option ℤ}
    → lacks symbol text ≡ true
    → Scanned text symbol (length text) r
    → r ≡ some (neg enoent)
none_in symbol text h (missing e absent) = e
none_in symbol text h (found i e less at before) =
    absurd (lacks-IsAbsent symbol text [] h i less (rw (append-nil text) at))

pub buf_contains_symbol-miss :
    (symbol : ℕ) (text : List ℕ)
    → lacks symbol text ≡ true
    → 0 < length text
    → buf_contains_symbol (some text) (pos (length text)) symbol ≡ some (neg enoent)
buf_contains_symbol-miss symbol text h some_text =
    none_in symbol text h (buf_contains_symbol-Scanned text _ symbol some_text (omega arith))
