-- ===== src/Data/Scan.antt =====
-- src/chopdata.c: the scans of a buffer, and `char_to_bin`. A buffer is the list of its bytes, and
-- `none` stands for a read outside it.
pub mod First
pub mod Cut
pub mod Binary
pub mod Lacks
use chopserver.Base.{
  ℕ, zero, suc, ◌+◌, ◌-◌, ◌/◌, ◌%◌, ◌^◌, ℤ, pos, pos_part, neg, lt_one, ◌==◌, List, [], ◌&&◌, not,
  Option, none, some, get_elem?, set, if◌then◌else◌,
}
use chopserver.Structs.{einval, enoent}

-- `b'\n'`, `b'\r'`
abbrev pub line_feed : ℕ
line_feed = 10

abbrev pub carriage_return : ℕ
carriage_return = 13

infixl 5 ◌>>=◌
abbrev pub ◌>>=◌ {ℓ κ} : {A : Type ℓ} {B : Type κ} → Option A → (A → Option B) → Option B
none >>= f = none
some a >>= f = f a

-- `rounds` is `len - index`.
unfoldable pub find_newline_loop : List ℕ → (rounds index : ℕ) → Option ℤ
find_newline_loop buf zero index = some (neg enoent)
find_newline_loop buf (suc rounds) index =
    let rest = find_newline_loop buf rounds (index + 1) in
    do
      before ← get_elem? buf (index - 1)
      cur ← get_elem? buf index
      if before == carriage_return && cur == line_feed
          then some (pos index)
          else if not (before == carriage_return) && cur == line_feed
          then some (pos index)
          else rest

unfoldable pub find_newline : Option (List ℕ) → ℤ → Option ℤ
unfolding find_newline_loop
find_newline none len = some (neg einval)
find_newline (some buf) len = if lt_one len then some (neg einval) else (do
  first ← get_elem? buf 0
  if first == line_feed then some (pos 0) else find_newline_loop buf (pos_part len - 1) 1)

-- The result, and the buffer with its newline replaced.
unfoldable pub remove_newline_loop : List ℕ → (rounds index : ℕ) → Option (ℤ × List ℕ)
remove_newline_loop buf zero index = some (neg enoent, buf)
remove_newline_loop buf (suc rounds) index =
    let rest = remove_newline_loop buf rounds (index + 1) in
    do
      before ← get_elem? buf (index - 1)
      cur ← get_elem? buf index
      if before == carriage_return && cur == line_feed
          then some (pos index, set (set buf (index - 1) 0) index 0)
          else if not (before == carriage_return) && cur == line_feed
          then some (pos index, set buf index 0)
          else rest

unfoldable pub remove_newline : Option (List ℕ) → ℤ → Option (ℤ × List ℕ)
unfolding remove_newline_loop
remove_newline none len = some (neg einval, [])
remove_newline (some buf) len = if lt_one len then some (neg einval, buf) else (do
  first ← get_elem? buf 0
  if first == line_feed
      then some (pos 0, set buf 0 0)
      else remove_newline_loop buf (pos_part len - 1) 1)

unfoldable pub contains_symbol_loop : List ℕ → ℕ → (rounds index : ℕ) → Option ℤ
contains_symbol_loop buf symbol zero index = some (neg enoent)
contains_symbol_loop buf symbol (suc rounds) index =
    let rest = contains_symbol_loop buf symbol rounds (index + 1) in
    do cur ← get_elem? buf index; if cur == symbol then some (pos index) else rest

unfoldable pub buf_contains_symbol : Option (List ℕ) → ℤ → ℕ → Option ℤ
unfolding contains_symbol_loop
buf_contains_symbol none len symbol = some (neg einval)
buf_contains_symbol (some buf) len symbol =
    if lt_one len then some (neg einval) else contains_symbol_loop buf symbol (pos_part len) 0

-- `value & (0x1 << i)` of a byte.
abbrev pub bit_at : ℕ → ℕ → ℕ
bit_at value i = (value / 2 ^ i) % 2

-- `rounds` is `8 - i`.
unfoldable pub char_to_bin_loop : ℕ → (rounds i : ℕ) → List ℕ → List ℕ
char_to_bin_loop value zero i ret = ret
char_to_bin_loop value (suc rounds) i ret =
    char_to_bin_loop value rounds (i + 1)
      (set ret (7 - i) (if bit_at value i == 0 then b'0' else b'1'))

-- `ret` has room for nine characters.
unfoldable pub char_to_bin : ℕ → List ℕ → List ℕ
unfolding char_to_bin_loop
char_to_bin value ret = set (char_to_bin_loop value 8 0 ret) 8 0
