-- ===== src/Manage/Clients/Slots.antt =====
-- The slots of the server: how many there are and how many are taken, and that no client is kept
-- that is to be closed.
use chopserver.Base.{
  ℕ, zero, suc, ◌+◌, ◌≤◌, ◌<◌, ◌≡◌, ap, inl, inr, ℤ, pos, negsuc, List, [], ◌∷◌, Option, none, some,
  arith, length, get_elem?, set, Bool-cases, get_elem?-some, ==_iff, ◌==◌,
}
use chopserver.Structs.{Client}
use chopserver.Manage.Clients.{find_slot}

abbrev pub taken_in : Option Client → ℕ
taken_in none = 0
taken_in (some c) = 1

-- How many slots hold a client.
abbrev pub occupied : List (Option Client) → ℕ
occupied [] = 0
occupied (slot ∷ slots) = taken_in slot + occupied slots

-- Every client in the slots is as `P` says.
abbrev pub AllClients : (Client → Type 0) → List (Option Client) → Type 0
AllClients P [] = Unit
AllClients P (none ∷ slots) = AllClients P slots
AllClients P (some c ∷ slots) = P c × AllClients P slots

pub occupied-set :
    (slots : List (Option Client)) (i : ℕ) (old new : Option Client)
    → get_elem? slots i ≡ some old
    → occupied (set slots i new) + taken_in old ≡ occupied slots + taken_in new
occupied-set [] i old new e = cc
occupied-set (slot ∷ slots) zero old new e =
    let same : slot ≡ old = cc e in omega (arith, ap taken_in same)
occupied-set (slot ∷ slots) (suc i) old new e = omega (arith, occupied-set slots i old new e)

module _ (P : Client → Type 0) where
  pub AllClients-set :
      (slots : List (Option Client)) (i : ℕ) (c : Client)
      → P c
      → AllClients P slots
      → AllClients P (set slots i (some c))
  AllClients-set [] i c p all = tt
  AllClients-set (none ∷ slots) zero c p all = (p, all)
  AllClients-set (some d ∷ slots) zero c p all = (p, all.1)
  AllClients-set (none ∷ slots) (suc i) c p all = AllClients-set slots i c p all
  AllClients-set (some d ∷ slots) (suc i) c p all = (all.0, AllClients-set slots i c p all.1)

  pub AllClients-clear :
      (slots : List (Option Client)) (i : ℕ) → AllClients P slots → AllClients P (set slots i none)
  AllClients-clear [] i all = tt
  AllClients-clear (none ∷ slots) zero all = all
  AllClients-clear (some d ∷ slots) zero all = all.1
  AllClients-clear (none ∷ slots) (suc i) all = AllClients-clear slots i all
  AllClients-clear (some d ∷ slots) (suc i) all = (all.0, AllClients-clear slots i all.1)

-- A slot that holds a client.
abbrev pub IsTaken : List (Option Client) → ℕ → Type 0
IsTaken slots i = (c : Client) × (get_elem? slots i ≡ some (some c))

-- The outcome of the search among the first `max` slots: the first that is empty, or none.
pub data Found (slots : List (Option Client)) (max : ℕ) : Option ℤ → Type 0 where
  found :
      (i : ℕ)
      → i < max
      → get_elem? slots i ≡ some none
      → ((j : ℕ) → j < i → IsTaken slots j)
      → Found slots max (some (pos i))
  full : ((j : ℕ) → j < max → IsTaken slots j) → Found slots max (some (negsuc 0))

-- One round of the search.
find_round :
    (slots : List (Option Client)) (rounds i max : ℕ) (x : Option Client)
    → get_elem? slots i ≡ some x
    → i < max
    → ((j : ℕ) → j < i → IsTaken slots j)
    → (IsTaken slots i → Found slots max (find_slot slots rounds (i + 1)))
    → Found slots max (find_slot slots (suc rounds) i)
unfolding find_slot
find_round slots rounds i max none at inside before next = rw at (found i inside at before)
find_round slots rounds i max (some c) at inside before next = rw at (next (c, at))

below_next :
    (slots : List (Option Client)) (i : ℕ)
    → ((j : ℕ) → j < i → IsTaken slots j)
    → IsTaken slots i
    → (j : ℕ) → j < i + 1
    → IsTaken slots j
below_next slots i before here j less = elim (Bool-cases (j == i)) [
  | inl same ↦ rw ((==_iff j i).0 same) here
  | inr below ↦ before j (ground arith)
]

pub find_slot-Found :
    (slots : List (Option Client)) (rounds i max : ℕ)
    → i + rounds ≡ max
    → max ≤ length slots
    → ((j : ℕ) → j < i → IsTaken slots j)
    → Found slots max (find_slot slots rounds i)
unfolding find_slot
find_slot-Found slots zero i max e fits before = full λ j less. before j (omega (arith, e))
find_slot-Found slots (suc rounds) i max e fits before =
    let (x, at) = get_elem?-some slots i (omega (arith, e)) in
    find_round slots rounds i max x at (omega (arith, e)) before λ here.
      find_slot-Found slots rounds (i + 1) max (omega (arith, e)) fits
        (below_next slots i before here)
