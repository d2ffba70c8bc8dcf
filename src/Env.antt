-- ===== src/Env.antt =====
-- What the process shares with its operating system: the allocator, the descriptors that were
-- closed, the clock, and the calls of `printf` that were made.
use Prim.Native.String.{String}
use chopserver.Base.{◌≡◌, ℕ, ◌+◌, ℤ, List, [], ◌∷◌, ◌++◌, Bool, true, false, Option}

-- A call of `printf`: its format, and the arguments behind it. `with_prefix` is the format
-- "%.*s" with its length and its array, `with_time` a `time_t` given by the bytes of it that
-- were written (the others are indeterminate).
pub data Printed : Type 0 where
  plain : String → Printed
  with_int : String → ℤ → Printed
  with_str : String → Option String → Printed
  with_prefix : String → ℕ → List ℕ → Printed
  with_time : String → List ℕ → Printed

-- `mallocs` says for each coming `malloc` whether it succeeds; when it is used up they succeed.
-- `allocated` and `freed` count the blocks. `clock` is what `time(NULL)` returns, and
-- `header_type` the global of that name.
pub record Env : Type 0 where
  pub mallocs : List Bool
  pub allocated : ℕ
  pub freed : ℕ
  pub closed : List ℤ
  pub clock : ℕ
  pub header_type : ℕ
  pub shown : List Printed

unfoldable pub malloc_by : List Bool → Env → Bool × Env
malloc_by [] e = (true, record e { allocated = e.allocated + 1 })
malloc_by (true ∷ later) e = (true, record e { mallocs = later; allocated = e.allocated + 1 })
malloc_by (false ∷ later) e = (false, record e { mallocs = later })

unfoldable pub malloc : Env → Bool × Env
unfolding malloc_by
malloc e = malloc_by e.mallocs e

unfoldable pub free : Env → Env
free e = record e { freed = e.freed + 1 }

unfoldable pub close : ℤ → Env → Env
close fd e = record e { closed = e.closed ++ fd ∷ [] }

unfoldable pub print : Printed → Env → Env
print p e = record e { shown = e.shown ++ p ∷ [] }

-- Where every `malloc` succeeds.
pub malloc-ok :
    (e : Env) → e.mallocs ≡ [] → malloc e ≡ (true, record e { allocated = e.allocated + 1 })
unfolding malloc
malloc-ok e h = rw (h, malloc_by)
