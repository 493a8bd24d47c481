-- ===== src/IdDecoder/Table.antt =====
-- string/id_decoder.c: the array `a` as `reverse_table` fills it.
use c_playground.Common.{
  ℕ, zero, suc, ◌+◌, ◌<◌, ◌≡◌, ◌≤◌, refl, sym, ◌∙◌, ap, arith, ◌⊎◌, inl, inr, List, [], ◌∷◌, ◌++◌,
  Option, none, some,
}
use c_playground.Common.{
  codes, replicate, set, get_or, get_elem?, ltb, ◌==◌, if◌then◌else◌, length, Bool-cases, ltb→lt,
}
use c_playground.Common.Bits.{same_below, same_below→eq}
use c_playground.Common.Int.{ℤ, pos, negsuc}

-- `LASTCHAR`, the size of `a`.
abbrev pub last_char : ℕ
last_char = b'Z'

-- `table`: the 32 digits.
abbrev pub alphabet : List ℕ
alphabet = codes "0123456789BCDEFGHJKLMNPQRSTVWXYZ"

-- The array, and the stores outside of it as pairs of an index and a value.
pub record Array : Type 0 where
  pub cells : List ℤ
  pub outside : List (ℕ × ℤ)

unfoldable pub store : Array → ℕ → ℤ → Array
store a i v =
    if ltb i last_char
    then record a { cells = set a.cells i v }
    else record a { outside = a.outside ++ (i, v) ∷ [] }

-- The second loop, from the digit `i` on.
unfoldable pub store_digits : Array → List ℕ → ℕ → Array
unfolding store
store_digits a [] i = a
store_digits a (c ∷ cs) i = store_digits (store a c (pos i)) cs (i + 1)

unfoldable pub reverse_table : Array
unfolding store_digits
reverse_table =
    store_digits (record { cells = replicate last_char (negsuc 0); outside = [] }) alphabet 0

-- `a[c]`; `none` is a read outside of the array (a `char` from 128 on is negative).
unfoldable pub cell : ℕ → Option ℤ
unfolding reverse_table
cell c = get_elem? reverse_table.cells c

-- The digits but the last are found under their characters.
char_of : ℕ → ℕ
char_of d = get_or alphabet d 0

value_at : ℕ → ℕ
unfolding cell char_of
value_at d = elim (cell (char_of d)) [ none ↦ 99 | some z ↦ elim z [ pos n ↦ n | negsuc n ↦ 98 ] ]

-- The last digit, Z, is stored past the end of the array, and nothing else is.
pub outside-reverse_table : reverse_table.outside ≡ (b'Z', pos 31) ∷ []
unfolding reverse_table
outside-reverse_table = refl

read_value :
    (o : Option ℤ) (d : ℕ)
    → d < 90
    → ◌≡◌ {A = ℕ} (elim o [ none ↦ 99 | some z ↦ elim z [ pos n ↦ n | negsuc n ↦ 98 ] ]) d
    → o ≡ some (pos d)
read_value none d h e = absurd (omega arith)
read_value (some (pos n)) d h e = ap (λ k. some (pos k)) e
read_value (some (negsuc n)) d h e = absurd (omega arith)

pub cell-digit : (d : ℕ) → d < 31 → cell (get_or alphabet d 0) ≡ some (pos d)
cell-digit d h =
    read_value _ d (omega arith) (
      unfold value_at in
      same_below→eq value_at (λ i. i) 31 (unfold same_below value_at in refl) d h)

abbrev fault : ℕ → ℤ → ℕ
fault c (pos n) = if ltb n 31 then (if get_or alphabet n 0 == c then 0 else 1) else 1
fault c (negsuc n) = n

cell_fault : ℕ → ℕ
unfolding cell
cell_fault c = elim (cell c) [ none ↦ 0 | some z ↦ fault c z ]

no_fault : (c : ℕ) → c < 90 → cell_fault c ≡ 0
unfolding cell_fault same_below
no_fault = same_below→eq cell_fault (λ _. 0) 90 refl

read_fault :
    (c : ℕ) (z : ℤ)
    → fault c z ≡ 0
    → (z ≡ negsuc 0) ⊎ ((d : ℕ) × (d < 31) × (z ≡ pos d) × (c ≡ get_or alphabet d 0))
read_fault c (pos n) h = inr (n, ground arith, refl, ground arith)
read_fault c (negsuc n) h = inl (ap negsuc h)

get_elem?-outside : (xs : List ℤ) (i : ℕ) → length xs ≤ i → get_elem? xs i ≡ none
get_elem?-outside [] i h = refl
get_elem?-outside (x ∷ xs) zero h = absurd (omega arith)
get_elem?-outside (x ∷ xs) (suc i) h = get_elem?-outside xs i (omega arith)

-- A read from `Z` on is outside of the array.
pub cell_outside : (c : ℕ) → 90 ≤ c → cell c ≡ none
unfolding cell
cell_outside c h = get_elem?-outside reverse_table.cells c (omega arith)

fault_of_cell : (c : ℕ) (z : ℤ) → cell c ≡ some z → cell_fault c ≡ fault c z
unfolding cell_fault
fault_of_cell c z e = rw e

-- What a cell holds is -1, or a digit below 31 whose character is the index.
pub cell_range :
    (c : ℕ) (z : ℤ)
    → cell c ≡ some z
    → (z ≡ negsuc 0) ⊎ ((d : ℕ) × (d < 31) × (z ≡ pos d) × (c ≡ get_or alphabet d 0))
cell_range c z e = elim (Bool-cases (ltb c 90)) [
  | inl h ↦ read_fault c z (sym (fault_of_cell c z e) ∙ no_fault c (ltb→lt c 90 h))
  | inr h ↦ cc (cell_outside c (ground arith))
]
