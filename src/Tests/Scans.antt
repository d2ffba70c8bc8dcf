-- ===== src/Tests/Scans.antt =====
-- The scans at work on a line.
use mathlib.Core.Option
use chopserver.Base.{ℕ, ◌≡◌, refl, pos, List, [], ◌∷◌, some, true, arith}
use chopserver.Data.Scan.{line_feed, find_newline, remove_newline, buf_contains_symbol, char_to_bin}
use chopserver.Data.Scan.First.{Scanned, buf_contains_symbol-Scanned, find_newline-Scanned}
use chopserver.Data.Scan.Cut.{with_cut, remove_newline-find}
use chopserver.Data.Scan.Binary.{read_bin, is_bin, blank, char_to_bin-read_bin}

-- "hi\r\n!"
abbrev line : List ℕ
line = b'h' ∷ b'i' ∷ 13 ∷ 10 ∷ b'!' ∷ []

find_newline-line : find_newline (some line) (pos 5) ≡ some (pos 3)
unfolding find_newline
find_newline-line = refl

remove_newline-line :
    remove_newline (some line) (pos 5) ≡ some (pos 3, b'h' ∷ b'i' ∷ 0 ∷ 0 ∷ b'!' ∷ [])
unfolding remove_newline
remove_newline-line = refl

buf_contains_symbol-Scanned_example : Scanned line 13 4 (buf_contains_symbol (some line) (pos 4) 13)
buf_contains_symbol-Scanned_example =
    buf_contains_symbol-Scanned line 4 13 (omega arith) (omega arith)

find_newline-Scanned_example : Scanned line line_feed 5 (find_newline (some line) (pos 5))
find_newline-Scanned_example = find_newline-Scanned line 5 (omega arith) (omega arith)

remove_newline-find_example :
    remove_newline (some line) (pos 5)
    ≡ Option.map (with_cut line) (find_newline (some line) (pos 5))
remove_newline-find_example = remove_newline-find line (pos 5)

char_to_bin-read_bin_example :
    (read_bin 0 (char_to_bin 22 blank) ≡ 22) × (is_bin 8 (char_to_bin 22 blank) ≡ true)
char_to_bin-read_bin_example = char_to_bin-read_bin 22 (omega arith)
