-- ===== src/Data/Scan/Cut.antt =====
-- `remove_newline` finds what `find_newline` finds, and cuts the buffer there.
use mathlib.Core.Option
use chopserver.Base.{
  ℕ, zero, suc, ◌+◌, ◌-◌, ◌≡◌, refl, ap, sym, inl, inr, ℤ, pos, negsuc, ◌==◌, Bool-cases, Bool,
  true, false, List, Option, some, none, arith, get_elem?, set, Option-cases, if◌then◌else◌, ◌&&◌,
  not,
}
use chopserver.Data.Scan.{
  line_feed, carriage_return, find_newline_loop, find_newline, remove_newline_loop, remove_newline,
}

-- The buffer with the newline that ends at an index replaced by null bytes: one for a line feed
-- alone, two where a carriage return stands before it.
unfoldable pub cut : List ℕ → ℕ → List ℕ
cut buf zero = set buf 0 0
cut buf (suc i) = elim (get_elem? buf i) [
  | some b ↦ if b == carriage_return then set (set buf i 0) (suc i) 0 else set buf (suc i) 0
  | none ↦ set buf (suc i) 0
]

-- What is left of the buffer, by the result of the search.
unfoldable pub with_cut : List ℕ → ℤ → ℤ × List ℕ
with_cut buf (pos i) = (pos i, cut buf i)
with_cut buf (negsuc n) = (negsuc n, buf)

-- One test of a round, in both loops.
test-with_cut :
    (p q : Bool) (buf both one : List ℕ) (n : ℕ) (next : Option (ℤ × List ℕ)) (r : Option ℤ)
    → cut buf n ≡ (if p then both else one)
    → next ≡ Option.map (with_cut buf) r
    → (if p && q then some (pos n, both) else if not p && q then some (pos n, one) else next)
      ≡ Option.map
          (with_cut buf)
          (if p && q then some (pos n) else if not p && q then some (pos n) else r)
unfolding with_cut
test-with_cut true true buf both one n next r e h = ap (λ l. some (pos n, l)) (sym e)
test-with_cut true false buf both one n next r e h = h
test-with_cut false true buf both one n next r e h = ap (λ l. some (pos n, l)) (sym e)
test-with_cut false false buf both one n next r e h = h

cut_at :
    (buf : List ℕ) (i b : ℕ)
    → get_elem? buf i ≡ some b
    → cut buf (suc i)
      ≡ (if b == carriage_return then set (set buf i 0) (suc i) 0 else set buf (suc i) 0)
unfolding cut
cut_at buf i b e = rw (e, cut)

find_round :
    (buf : List ℕ) (rounds i : ℕ)
    → remove_newline_loop buf rounds (suc (suc i))
      ≡ Option.map (with_cut buf) (find_newline_loop buf rounds (suc (suc i)))
    → remove_newline_loop buf (suc rounds) (suc i)
      ≡ Option.map (with_cut buf) (find_newline_loop buf (suc rounds) (suc i))
unfolding remove_newline_loop find_newline_loop
find_round buf rounds i ih =
    let i' : suc i - 1 ≡ i = omega arith in
    let next : suc i + 1 ≡ suc (suc i) = omega arith in
    rw (i', next)
      (elim (Option-cases (get_elem? buf i)) [
        | inl outside ↦ rw outside
        | inr (b, at_b) ↦ rw at_b (elim (Option-cases (get_elem? buf (suc i))) [
          | inl outside ↦ rw outside
          | inr (x, at) ↦ rw at (
              test-with_cut (b == carriage_return) (x == line_feed) buf
                (set (set buf i 0) (suc i) 0) (set buf (suc i) 0) (suc i)
                (remove_newline_loop buf rounds (suc (suc i)))
                (find_newline_loop buf rounds (suc (suc i))) (cut_at buf i b at_b) ih)
        ])
      ])

remove_newline_loop-find :
    (buf : List ℕ) (rounds i : ℕ)
    → remove_newline_loop buf rounds (suc i)
      ≡ Option.map (with_cut buf) (find_newline_loop buf rounds (suc i))
remove_newline_loop-find buf zero i = unfold remove_newline_loop find_newline_loop with_cut in refl
remove_newline_loop-find buf (suc rounds) i =
    find_round buf rounds i (remove_newline_loop-find buf rounds (suc i))

-- On any buffer and any length `remove_newline` returns what `find_newline` returns, errors and
-- reads outside the buffer included, and replaces the newline that was found by null bytes; where
-- none was found the buffer is left as it was.
pub remove_newline-find :
    (buf : List ℕ) (len : ℤ)
    → remove_newline (some buf) len ≡ Option.map (with_cut buf) (find_newline (some buf) len)
unfolding remove_newline find_newline with_cut cut
remove_newline-find buf (negsuc n) = refl
remove_newline-find buf (pos zero) = refl
remove_newline-find buf (pos (suc k)) =
    let k' : suc k - 1 ≡ k = omega arith in
    rw k' (elim (Option-cases (get_elem? buf 0)) [
      | inl outside ↦ rw outside
      | inr (x, at) ↦ rw at (elim (Bool-cases (x == line_feed)) [
        | inl hit ↦ rw hit refl
        | inr miss ↦ rw miss (remove_newline_loop-find buf k 0)
      ])
    ])
