-- ===== src/Manage/Address/Quads.antt =====
-- Dotted quads are addresses, and so is everything that begins like one.
use mathlib.Core.List.{append-nil}
use chopserver.Base.{
  ℕ, suc, ◌+◌, ◌/◌, ◌%◌, ◌<◌, ◌≡◌, refl, sym, ap, ◌∙◌, List, [], ◌∷◌, ◌++◌, some, if◌then◌else◌,
  ◌==◌, ◌&&◌, not, Bool, true, false, ltb, passes, passes-lt, &&-true, Bool-cases, inl, inr, arith,
}
use chopserver.Manage.Address.{
  dot, take_token, strtok, strtol, is_byte, check_token, tokens_are_bytes, is_address,
}

-- A byte in decimal.
unfoldable pub decimal : ℕ → List ℕ
decimal n =
    if ltb n 10
    then (b'0' + n) ∷ []
    else if ltb n 100
    then (b'0' + n / 10) ∷ (b'0' + n % 10) ∷ []
    else (b'0' + n / 100) ∷ (b'0' + n / 10 % 10) ∷ (b'0' + n % 10) ∷ []

-- No character is a dot.
unfoldable pub has_no_dot : List ℕ → Bool
has_no_dot [] = true
has_no_dot (b ∷ bs) = not (b == dot) && has_no_dot bs

take_token-append :
    (token rest : List ℕ)
    → has_no_dot token ≡ true
    → take_token (token ++ dot ∷ rest) ≡ (token, rest)
unfolding take_token has_no_dot
take_token-append [] rest h = refl
take_token-append (b ∷ bs) rest h =
    let (here, later) = &&-true (not (b == dot)) (has_no_dot bs) h in
    elim (Bool-cases (b == dot)) [
      | inl is_dot ↦ absurd (ground arith)
      | inr other ↦ rw (other, take_token-append bs rest later) refl
    ]

take_token-all : (token : List ℕ) → has_no_dot token ≡ true → take_token token ≡ (token, [])
unfolding take_token has_no_dot
take_token-all [] h = refl
take_token-all (b ∷ bs) h =
    let (here, later) = &&-true (not (b == dot)) (has_no_dot bs) h in
    elim (Bool-cases (b == dot)) [
      | inl is_dot ↦ absurd (ground arith)
      | inr other ↦ rw (other, take_token-all bs later) refl
    ]

-- There is a first character, and it is no dot.
unfoldable pub starts : List ℕ → Bool
starts [] = false
starts (b ∷ bs) = not (b == dot)

strtok-starts : (str : List ℕ) → starts str ≡ true → strtok str ≡ some (take_token str)
unfolding starts strtok
strtok-starts [] h = absurd cc
strtok-starts (b ∷ bs) h = elim (Bool-cases (b == dot)) [
  | inl is_dot ↦ absurd (ground arith)
  | inr other ↦ rw other refl
]

starts-append : (token rest : List ℕ) → starts token ≡ true → starts (token ++ rest) ≡ true
unfolding starts
starts-append [] rest h = absurd cc
starts-append (b ∷ bs) rest h = h

-- What is checked of every number below 1000: its text is one token, which is accepted exactly where
-- the number is a byte.
is_read : ℕ → Bool
is_read n =
    starts (decimal n)
    && (has_no_dot (decimal n)
        && (if ltb n 256 then is_byte (strtol (decimal n)) else not (is_byte (strtol (decimal n)))))

is_read-table : passes is_read 1000 ≡ true
unfolding is_read starts has_no_dot decimal strtol passes
is_read-table = refl

-- The text of a number, as the three checks find it.
record IsRead (n : ℕ) (token : List ℕ) : Type 0 where
  first : starts token ≡ true
  whole : has_no_dot token ≡ true
  judged : is_byte (strtol token) ≡ ltb n 256

chosen : (b x : Bool) → (if b then x else not x) ≡ true → x ≡ b
chosen true x e = e
chosen false true e = sym e
chosen false false e = refl

decimal-IsRead : (n : ℕ) → n < 1000 → IsRead n (decimal n)
unfolding is_read
decimal-IsRead n h =
    let (first, others) =
      &&-true (starts (decimal n)) _ (passes-lt is_read 1000 n h is_read-table) in
    let (whole, judged) = &&-true (has_no_dot (decimal n)) _ others in
    record { first = first; whole = whole; judged = chosen (ltb n 256) _ judged }

if_and : (b x : Bool) → (if b then x else false) ≡ (b && x)
if_and true x = refl
if_and false x = refl

token_before_dot :
    (rounds n : ℕ) (token rest : List ℕ)
    → IsRead n token
    → tokens_are_bytes (suc rounds) (token ++ dot ∷ rest)
      ≡ (ltb n 256 && tokens_are_bytes rounds rest)
unfolding tokens_are_bytes check_token
token_before_dot rounds n token rest read =
    rw
      (
        strtok-starts (token ++ dot ∷ rest) (starts-append token (dot ∷ rest) read.first),
        take_token-append token rest read.whole,
        read.judged,
      )
      (if_and (ltb n 256) _)

last_token :
    (rounds n : ℕ) (token : List ℕ)
    → IsRead n token
    → tokens_are_bytes (suc rounds) token ≡ (ltb n 256 && tokens_are_bytes rounds [])
unfolding tokens_are_bytes check_token
last_token rounds n token read =
    rw (strtok-starts token read.first, take_token-all token read.whole, read.judged)
      (if_and (ltb n 256) _)

-- Numbers in decimal with dots between them, and what follows the last.
abbrev pub dotted : List ℕ → (n : ℕ) → (after : List ℕ) → List ℕ
dotted [] n after = decimal n ++ after
dotted (m ∷ ns) n after = decimal m ++ dot ∷ dotted ns n after

abbrev pub all_below : (bound : ℕ) → List ℕ → Bool
all_below bound [] = true
all_below bound (n ∷ ns) = ltb n bound && all_below bound ns

and_false : (b : Bool) → (b && false) ≡ false
and_false true = refl
and_false false = refl

-- The last number that is there, where `rounds` more are wanted.
last_dotted :
    (rounds n : ℕ)
    → n < 1000
    → tokens_are_bytes (suc rounds) (dotted [] n []) ≡ (ltb n 256 && tokens_are_bytes rounds [])
last_dotted rounds n h =
    ap (λ l. tokens_are_bytes (suc rounds) l) (append-nil (decimal n))
    ∙ last_token rounds n (decimal n) (decimal-IsRead n h)

-- One number, and those behind it.
more_dotted :
    (rounds m : ℕ) (rest : List ℕ) (later : Bool)
    → m < 1000
    → tokens_are_bytes rounds rest ≡ later
    → tokens_are_bytes (suc rounds) (decimal m ++ dot ∷ rest) ≡ (ltb m 256 && later)
more_dotted rounds m rest later h e =
    token_before_dot rounds m (decimal m) rest (decimal-IsRead m h) ∙ ap (λ b. ltb m 256 && b) e

-- Where a number is missing, the text is refused.
missing :
    (rounds m : ℕ) (rest : List ℕ)
    → m < 1000
    → tokens_are_bytes rounds rest ≡ false
    → tokens_are_bytes (suc rounds) (decimal m ++ dot ∷ rest) ≡ false
missing rounds m rest h e = more_dotted rounds m rest false h e ∙ and_false (ltb m 256)

last_missing :
    (rounds n : ℕ) → n < 1000 → tokens_are_bytes (suc (suc rounds)) (dotted [] n []) ≡ false
unfolding tokens_are_bytes strtok check_token
last_missing rounds n h = last_dotted (suc rounds) n h ∙ and_false (ltb n 256)

-- Of numbers below 1000 in decimal with dots between them: `is_address` accepts four exactly where
-- all of them are below 256; it judges four with a further dot and any text behind them in the same
-- way, whatever the text is; and it refuses three, two or one.
pub is_address-dotted :
    (a b c d : ℕ) (tail : List ℕ)
    → a < 1000
    → b < 1000
    → c < 1000
    → d < 1000
    → (is_address (some (dotted (a ∷ b ∷ c ∷ []) d [])) ≡ all_below 256 (a ∷ b ∷ c ∷ d ∷ []))
      × (is_address (some (dotted (a ∷ b ∷ c ∷ []) d (dot ∷ tail)))
          ≡ all_below 256 (a ∷ b ∷ c ∷ d ∷ []))
      × (is_address (some (dotted (a ∷ b ∷ []) c [])) ≡ false)
      × (is_address (some (dotted (a ∷ []) b [])) ≡ false)
      × (is_address (some (dotted [] a [])) ≡ false)
unfolding is_address tokens_are_bytes
is_address-dotted a b c d tail ha hb hc hd = (
  more_dotted 3 a _ _ ha (more_dotted 2 b _ _ hb (more_dotted 1 c _ _ hc (last_dotted 0 d hd))),
  more_dotted 3 a _ _ ha
      (more_dotted 2 b _ _ hb (more_dotted 1 c _ _ hc (more_dotted 0 d tail true hd refl))),
  missing 3 a _ ha (missing 2 b _ hb (last_missing 0 c hc)),
  missing 3 a _ ha (last_missing 1 b hb),
  last_missing 2 a ha,
)
