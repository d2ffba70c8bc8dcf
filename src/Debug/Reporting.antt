-- ===== src/Debug/Reporting.antt =====
-- src/chopdebug.c: `_debug_print`, which a build with DEBUG calls.
use Prim.Native.String.{String}
use chopserver.Base.{
  ℕ, ◌≡◌, ◌∙◌, refl, sym, ap, inl, inr, List, [], ◌∷◌, ◌++◌, Option, none, some, Bool-cases, ltb,
  if◌then◌else◌,
}
use mathlib.Core.List.{append_assoc, append-nil}
use chopserver.Env.{Printed, plain, with_str}

abbrev pub dbg_fcn_head : String
dbg_fcn_head = "[DEBUG][%s]: "

abbrev pub dbg_fcn_tail : String
dbg_fcn_tail = "\n"

-- A call of `dprintf` on `debug_fd`; `errno_line` has the format "[ERRNO %d]: %s\n" with its number
-- and its text.
pub data Line : Type 0 where
  line : Printed → Line
  errno_line : ℕ → String → Line

-- What `_debug_print` shares with the system: `errno`, the calls of `dprintf` that were made, and
-- for each coming call what it leaves in `errno`, if it changes it; when this is used up, none does.
pub record Stderr : Type 0 where
  pub errno : ℕ
  pub lines : List Line
  pub leaves : List (Option ℕ)

unfoldable pub called : List (Option ℕ) → Stderr → Stderr
called [] st = st
called (none ∷ later) st = record st { leaves = later }
called (some e ∷ later) st = record st { errno = e; leaves = later }

unfoldable pub dprintf : Line → Stderr → Stderr
unfolding called
dprintf l st = called st.leaves (record st { lines = st.lines ++ l ∷ [] })

-- `format` is none for NULL, and otherwise the format with its arguments; `strerror` is the
-- library's, a call that can change `errno` like any other.
unfoldable pub debug_print :
    (strerror : ℕ → String) (function : Option String) (format : Option Printed) → Stderr → Stderr
unfolding dprintf
debug_print strerror function none st = st
debug_print strerror function (some printed) st =
    let errsav = st.errno in
    let headed = dprintf (line (with_str dbg_fcn_head function)) st in
    let tailed = dprintf (line (plain dbg_fcn_tail)) (dprintf (line printed) headed) in
    let reported =
      if ltb 0 errsav
      then dprintf (errno_line errsav (strerror errsav)) (called tailed.leaves tailed)
      else tailed in
    record reported { errno = errsav }

-- What a call writes.
abbrev pub report :
    (strerror : ℕ → String) (function : Option String) (format : Option Printed) (errno : ℕ)
    → List Line
report strerror function none errno = []
report strerror function (some printed) errno =
    line (with_str dbg_fcn_head function)
    ∷ line printed
    ∷ line (plain dbg_fcn_tail)
    ∷ (if ltb 0 errno then errno_line errno (strerror errno) ∷ [] else [])

called-lines : (leaves : List (Option ℕ)) (st : Stderr) → (called leaves st).lines ≡ st.lines
unfolding called
called-lines [] st = refl
called-lines (none ∷ later) st = refl
called-lines (some e ∷ later) st = refl

dprintf-lines :
    (l : Line) (before ls : List Line) (st : Stderr)
    → st.lines ≡ before ++ ls
    → (dprintf l st).lines ≡ before ++ (ls ++ l ∷ [])
unfolding dprintf
dprintf-lines l before ls st e =
    called-lines st.leaves (record st { lines = st.lines ++ l ∷ [] })
    ∙ ap (λ k. k ++ l ∷ []) e
    ∙ append_assoc before ls (l ∷ [])

-- Whatever the calls that it makes leave in `errno`, `_debug_print` leaves there what was there
-- before. Without a format it writes nothing; with one it writes the name of the function, the
-- message and the end of the line, and then, where `errno` was positive when it was called, the line
-- with that number and its text.
pub debug_print-report :
    (strerror : ℕ → String) (function : Option String) (format : Option Printed) (st : Stderr)
    → ((debug_print strerror function format st).errno ≡ st.errno)
      × ((debug_print strerror function format st).lines
          ≡ st.lines ++ report strerror function format st.errno)
unfolding debug_print
debug_print-report strerror function none st = (refl, sym (append-nil st.lines))
debug_print-report strerror function (some printed) st =
    let head = line (with_str dbg_fcn_head function) in
    let tail = line (plain dbg_fcn_tail) in
    let s1 = dprintf head st in
    let s2 = dprintf (line printed) s1 in
    let s3 = dprintf tail s2 in
    let headed = dprintf-lines head st.lines [] st (sym (append-nil st.lines)) in
    let said = dprintf-lines (line printed) st.lines (head ∷ []) s1 headed in
    let tailed = dprintf-lines tail st.lines (head ∷ line printed ∷ []) s2 said in
    elim (Bool-cases (ltb 0 st.errno)) [
      | inl positive ↦ rw positive (
        refl,
        dprintf-lines (errno_line st.errno (strerror st.errno)) st.lines
            (head ∷ line printed ∷ tail ∷ []) (called s3.leaves s3)
            (called-lines s3.leaves s3 ∙ tailed),
      )
      | inr zero_errno ↦ rw zero_errno (refl, tailed)
    ]
