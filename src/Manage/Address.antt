-- ===== src/Manage/Address.antt =====
-- src/chopconn.c: `is_address`, with what it uses of `strtok_r` and `strtol`. A string is the list
-- of its characters, without the null byte.
pub mod Quads
use chopserver.Base.{
  ℕ, zero, suc, ◌+◌, ◌-◌, ◌*◌, ◌^◌, min, ℤ, pos, negsuc, neg, leb, ltb, List, [], ◌∷◌, Option, none,
  some, if◌then◌else◌, ◌==◌, ◌||◌, ◌&&◌, Bool, true, false,
}

abbrev pub dot : ℕ
dot = b'.'

-- The token up to the next dot, and what follows the dot.
unfoldable pub take_token : List ℕ → List ℕ × List ℕ
take_token [] = ([], [])
take_token (b ∷ bs) =
    let (token, rest) = take_token bs in if b == dot then ([], bs) else (b ∷ token, rest)

-- `strtok_r(rest, ".", &rest)`: dots in front are skipped, and NULL is returned where nothing is
-- left.
unfoldable pub strtok : List ℕ → Option (List ℕ × List ℕ)
unfolding take_token
strtok [] = none
strtok (b ∷ bs) =
    let skipped = strtok bs in if b == dot then skipped else some (take_token (b ∷ bs))

abbrev pub is_digit : ℕ → Bool
is_digit b = leb b'0' b && leb b b'9'

abbrev pub is_space : ℕ → Bool
is_space b = b == b' ' || (leb 9 b && leb b 13)

-- The value of the digits in front.
unfoldable pub digits : (acc : ℕ) → List ℕ → ℕ
digits acc [] = acc
digits acc (b ∷ bs) =
    let rest = digits (10 * acc + (b - b'0')) bs in if is_digit b then rest else acc

-- The number behind a sign, kept in the range of a `long`.
unfoldable pub signed : List ℕ → ℤ
unfolding digits
signed [] = pos 0
signed (b ∷ bs) =
    if b == b'-'
    then neg (min (digits 0 bs) (2 ^ 63))
    else if b == b'+'
    then pos (min (digits 0 bs) (2 ^ 63 - 1))
    else pos (min (digits 0 (b ∷ bs)) (2 ^ 63 - 1))

-- `strtol(token, &ptr, 10)`; it is 0 where there are no digits.
unfoldable pub strtol : List ℕ → ℤ
unfolding signed
strtol [] = pos 0
strtol (b ∷ bs) = let rest = strtol bs in if is_space b then rest else signed (b ∷ bs)

-- `num < 0 || num > 255`, negated.
abbrev pub is_byte : ℤ → Bool
is_byte (pos n) = leb n 255
is_byte (negsuc n) = false

-- A round: `later` are the rounds behind it.
unfoldable pub check_token : Option (List ℕ × List ℕ) → (later : List ℕ → Bool) → Bool
unfolding strtol
check_token none later = false
check_token (some (token, rest)) later = if is_byte (strtol token) then later rest else false

-- `rounds` is `4 - i`.
unfoldable pub tokens_are_bytes : (rounds : ℕ) → List ℕ → Bool
unfolding strtok check_token
tokens_are_bytes zero rest = true
tokens_are_bytes (suc rounds) rest =
    check_token (strtok rest) λ rest'. tokens_are_bytes rounds rest'

unfoldable pub is_address : Option (List ℕ) → Bool
unfolding tokens_are_bytes
is_address none = false
is_address (some str) = tokens_are_bytes 4 str
