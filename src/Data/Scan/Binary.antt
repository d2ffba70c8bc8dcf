-- ===== src/Data/Scan/Binary.antt =====
-- `char_to_bin` prints a byte in binary.
use chopserver.Base.{
  passes, passes-lt, &&-true, ℕ, zero, suc, ◌+◌, ◌-◌, ◌*◌, ◌<◌, ◌≡◌, refl, List, [], ◌∷◌, Bool,
  true, false, ◌&&◌, ◌||◌, ◌==◌, ==_iff, replicate,
}
use chopserver.Data.Scan.{char_to_bin}

-- The value of a string of binary digits, up to its null byte.
unfoldable pub read_bin : (acc : ℕ) → List ℕ → ℕ
read_bin acc [] = acc
read_bin acc (b ∷ bs) =
    let rest = read_bin (2 * acc + (b - b'0')) bs in elim (b == 0) [ true ↦ acc | false ↦ rest ]

-- Eight digits and a null byte.
unfoldable pub is_bin : (digits : ℕ) → List ℕ → Bool
is_bin zero (b ∷ []) = b == 0
is_bin zero bs = false
is_bin (suc n) [] = false
is_bin (suc n) (b ∷ bs) = (b == b'0' || b == b'1') && is_bin n bs

abbrev pub blank : List ℕ
blank = replicate 9 0

prints : ℕ → Bool
prints v = read_bin 0 (char_to_bin v blank) == v && is_bin 8 (char_to_bin v blank)

prints-table : passes prints 256 ≡ true
unfolding passes prints read_bin is_bin char_to_bin
prints-table = refl

-- For every byte `char_to_bin` fills a buffer of nine characters with eight binary digits and a
-- null byte, and the digits spell the byte.
pub char_to_bin-read_bin :
    (value : ℕ)
    → value < 256
    → (read_bin 0 (char_to_bin value blank) ≡ value) × (is_bin 8 (char_to_bin value blank) ≡ true)
unfolding prints
char_to_bin-read_bin value h =
    let t = passes-lt prints 256 value h prints-table in
    let both = &&-true (read_bin 0 (char_to_bin value blank) == value) _ t in
    ((==_iff _ value).0 both.0, both.1)
