-- ===== src/Data/Scan/First.antt =====
-- The scans find the first symbol, and read nothing outside the buffer.
use chopserver.Base.{
  ℕ, zero, suc, ◌+◌, ◌-◌, ◌≤◌, ◌<◌, ◌≡◌, ◌≢◌, refl, inl, inr, ℤ, pos, neg, ◌==◌, Bool-cases, ==_iff,
  Bool, true, false, ap, ◌∙◌, List, Option, some, arith, length, get_elem?, get_elem?-some,
  if◌then◌else◌, ◌&&◌, not,
}
use native.Mathlib.Numerals.{add-one}
use chopserver.Structs.{enoent}
use chopserver.Data.Scan.{
  line_feed, carriage_return, find_newline_loop, find_newline, contains_symbol_loop,
  buf_contains_symbol,
}

-- `symbol` does not stand below the index.
abbrev pub IsAbsent : List ℕ → ℕ → ℕ → Type 0
IsAbsent buf symbol i = (j : ℕ) → j < i → get_elem? buf j ≢ some symbol

-- The outcome of a scan of the first `len` bytes: the first index of the symbol, or -ENOENT.
pub data Scanned (buf : List ℕ) (symbol len : ℕ) (r : Option ℤ) : Type 0 where
  found :
      (i : ℕ)
      → r ≡ some (pos i)
      → i < len
      → get_elem? buf i ≡ some symbol
      → IsAbsent buf symbol i
      → Scanned buf symbol len r
  missing : r ≡ some (neg enoent) → IsAbsent buf symbol len → Scanned buf symbol len r

IsAbsent-step :
    (buf : List ℕ) (symbol i : ℕ) {x : ℕ}
    → IsAbsent buf symbol i
    → get_elem? buf i ≡ some x
    → (x == symbol) ≡ false
    → IsAbsent buf symbol (i + 1)
IsAbsent-step buf symbol i {x} before at ne j less e = elim (Bool-cases (j == i)) [
  | inl here ↦
      let same : get_elem? buf i ≡ some symbol = rw (← (==_iff j i).0 here) e in
      let hit : x ≡ symbol = cc at in ground (arith, hit)
  | inr below ↦ before j (ground arith) e
]

contains_symbol_loop-Scanned :
    (buf : List ℕ) (symbol rounds index len : ℕ)
    → index + rounds ≡ len
    → len ≤ length buf
    → IsAbsent buf symbol index
    → Scanned buf symbol len (contains_symbol_loop buf symbol rounds index)
unfolding contains_symbol_loop
contains_symbol_loop-Scanned buf symbol zero index len e fits before =
    let e' : index ≡ len = omega arith in missing refl (rw (← e') before)
contains_symbol_loop-Scanned buf symbol (suc rounds) index len e fits before =
    let (x, at) = get_elem?-some buf index (omega arith) in
    rw at (elim (Bool-cases (x == symbol)) [
      | inl hit ↦
          rw hit (found index refl (omega arith) (at ∙ ap some ((==_iff x symbol).0 hit)) before)
      | inr miss ↦ rw miss (
          contains_symbol_loop-Scanned buf symbol rounds (index + 1) len (omega arith) fits
            (IsAbsent-step buf symbol index before at miss))
    ])

-- A line feed counts whether a carriage return stands before it or not.
either_newline {ℓ} :
    {A : Type ℓ} (p q : Bool) (m k : A)
    → (if p && q then m else if not p && q then m else k) ≡ (if q then m else k)
either_newline true true m k = refl
either_newline true false m k = refl
either_newline false true m k = refl
either_newline false false m k = refl

find_newline_loop-step :
    (buf : List ℕ) (rounds i b x : ℕ)
    → get_elem? buf i ≡ some b
    → get_elem? buf (suc i) ≡ some x
    → find_newline_loop buf (suc rounds) (suc i)
      ≡ (if x == line_feed then some (pos (suc i)) else find_newline_loop buf rounds (suc (suc i)))
unfolding find_newline_loop
find_newline_loop-step buf rounds i b x at_b at =
    let i' : suc i - 1 ≡ i = omega arith in
    let next : suc i + 1 ≡ suc (suc i) = omega arith in
    rw (i', at_b, at, next) (either_newline (b == carriage_return) (x == line_feed) _ _)

find_newline_loop-Scanned :
    (buf : List ℕ) (rounds i len : ℕ)
    → suc i + rounds ≡ len
    → len ≤ length buf
    → IsAbsent buf line_feed (suc i)
    → Scanned buf line_feed len (find_newline_loop buf rounds (suc i))
find_newline_loop-Scanned buf zero i len e fits before =
    let e' : suc i ≡ len = omega arith in
    unfold find_newline_loop in missing refl (rw (← e') before)
find_newline_loop-Scanned buf (suc rounds) i len e fits before =
    let (b, at_b) = get_elem?-some buf i (omega arith) in
    let (x, at) = get_elem?-some buf (suc i) (omega arith) in
    rw (find_newline_loop-step buf rounds i b x at_b at) (elim (Bool-cases (x == line_feed)) [
      | inl hit ↦
          rw hit
            (found (suc i) refl (omega arith) (at ∙ ap some ((==_iff x line_feed).0 hit)) before)
      | inr miss ↦ rw miss (
          find_newline_loop-Scanned buf rounds (suc i) len (omega arith) fits
            (rw add-one at (IsAbsent-step buf line_feed (suc i) before at miss)))
    ])

-- `buf_contains_symbol` on a buffer of at least `len` bytes returns the first index below `len`
-- at which the symbol stands, or -ENOENT if there is none, and reads only inside the buffer.
pub buf_contains_symbol-Scanned :
    (buf : List ℕ) (len symbol : ℕ)
    → 0 < len
    → len ≤ length buf
    → Scanned buf symbol len (buf_contains_symbol (some buf) (pos len) symbol)
unfolding buf_contains_symbol
buf_contains_symbol-Scanned buf zero symbol positive fits = absurd (omega arith)
buf_contains_symbol-Scanned buf (suc k) symbol positive fits =
    contains_symbol_loop-Scanned buf symbol (suc k) 0 (suc k) (omega arith) fits
      λ j less e. absurd (omega arith)

-- `find_newline` on a buffer of at least `len` bytes returns the index of the first line feed
-- below `len`, also where a carriage return stands before it, or -ENOENT if there is none, and
-- reads only inside the buffer.
pub find_newline-Scanned :
    (buf : List ℕ) (len : ℕ)
    → 0 < len
    → len ≤ length buf
    → Scanned buf line_feed len (find_newline (some buf) (pos len))
unfolding find_newline
find_newline-Scanned buf zero positive fits = absurd (omega arith)
find_newline-Scanned buf (suc k) positive fits =
    let (x, at) = get_elem?-some buf 0 (omega arith) in
    let k' : suc k - 1 ≡ k = omega arith in
    let none_before : IsAbsent buf line_feed 0 = λ j less e. absurd (omega arith) in
    rw (at, k')
      (elim (Bool-cases (x == line_feed)) [
        | inl hit ↦
            rw hit
              (found 0 refl (omega arith) (at ∙ ap some ((==_iff x line_feed).0 hit)) none_before)
        | inr miss ↦ rw miss (
            find_newline_loop-Scanned buf k 0 (suc k) (omega arith) fits
              (rw add-one at (IsAbsent-step buf line_feed 0 none_before at miss)))
      ])
