-- ===== src/NameCodec/Tables/Inverse.antt =====
-- The tables are inverse to each other: the entry of a pair's character is the pair's code point
-- with its UTF-8 bytes, and every entry that is set is found under its character.
use c_playground.Common.{ℕ, zero, suc, ◌<◌, ◌≡◌, ◌≢◌, refl, arith}
use c_playground.Common.{
  List, [], ◌∷◌, ◌++◌, Option, none, some, Bool, true, false, ◌&&◌, replicate,
}
use c_playground.Common.{get_or, get_elem?, ◌==◌, if◌then◌else◌}
use c_playground.Common.Bits.{same_below, same_below→eq}
use c_playground.NameCodec.Utf8.Encode.{utf8_bytes}
use c_playground.NameCodec.Search.Lookup.{scan}
use c_playground.NameCodec.Tables.{FamilyName, Pair, unset, table, pairs}

eq_bytes : List ℕ → List ℕ → Bool
eq_bytes [] [] = true
eq_bytes (x ∷ xs) (y ∷ ys) = x == y && eq_bytes xs ys
eq_bytes _ _ = false

eq_bytes→eq : (xs ys : List ℕ) → eq_bytes xs ys ≡ true → xs ≡ ys
unfolding eq_bytes
eq_bytes→eq [] [] h = refl
eq_bytes→eq [] (y ∷ ys) h = cc
eq_bytes→eq (x ∷ xs) [] h = cc
eq_bytes→eq (x ∷ xs) (y ∷ ys) h = ground (arith, eq_bytes→eq xs ys)

-- What the table should hold for a code point.
abbrev pub entry : ℕ → FamilyName
entry x = record { x = x; a = utf8_bytes x ++ replicate 5 0 }

eq_entry : FamilyName → FamilyName → Bool
unfolding eq_bytes
eq_entry e f = e.x == f.x && eq_bytes e.a f.a

eq_entry→eq : (e f : FamilyName) → eq_entry e f ≡ true → e ≡ f
unfolding eq_entry
eq_entry→eq e f h = ground (arith, eq_bytes→eq e.a f.a)

all_pairs : (Pair → Bool) → List Pair → Bool
all_pairs ok [] = true
all_pairs ok (p ∷ ps) = ok p && all_pairs ok ps

all_pairs_get :
    (ok : Pair → Bool) (ps : List Pair) (i : ℕ) (p : Pair)
    → all_pairs ok ps ≡ true
    → get_elem? ps i ≡ some p
    → ok p ≡ true
unfolding all_pairs
all_pairs_get ok [] i p h e = cc
all_pairs_get ok (q ∷ ps) zero p h e = ground (arith)
all_pairs_get ok (q ∷ ps) (suc i) p h e = ground (arith, all_pairs_get ok ps i p)

entry_ok : Pair → Bool
unfolding eq_entry table
entry_ok p = eq_entry (get_or table p.c unset) (entry p.x)

pairs-entry_ok : all_pairs entry_ok pairs ≡ true
unfolding all_pairs entry_ok pairs
pairs-entry_ok = refl

-- The entry of a pair's character is the pair's code point with its UTF-8 bytes.
pub table-pair :
    (i : ℕ) (p : Pair) → get_elem? pairs i ≡ some p → get_or table p.c unset ≡ entry p.x
table-pair i p e =
    eq_entry→eq _ _ (unfold entry_ok in (all_pairs_get entry_ok pairs i p pairs-entry_ok e))

-- 0 where the entry of the character `c` is not set, or is found under `c`.
misplaced : ℕ → ℕ
unfolding table pairs
misplaced c =
    let e : FamilyName = get_or table c unset in
    if e.x == 0xffff_ffff
    then 0
    else elim (scan e.x pairs) [ none ↦ 1 | some p ↦ if p.c == c then 0 else 1 ]

none_misplaced : (c : ℕ) → c < 128 → misplaced c ≡ 0
unfolding same_below misplaced
none_misplaced = same_below→eq misplaced (λ _. 0) 128 refl

read_misplaced :
    (c : ℕ) (e : FamilyName) (o : Option Pair)
    → ◌≡◌ {A = ℕ}
        (if e.x == 0xffff_ffff then 0 else elim o [ none ↦ 1 | some p ↦ if p.c == c then 0 else 1 ])
        0
    → e.x ≢ 0xffff_ffff
    → (p : Pair) × (o ≡ some p) × (p.c ≡ c)
read_misplaced c e none h k = absurd (ground arith)
read_misplaced c e (some p) h k = (p, refl, ground arith)

-- Every entry of the table that is set is the one that its code point's pair points to.
pub pair-table :
    (c : ℕ)
    → c < 128
    → (get_or table c unset).x ≢ 0xffff_ffff
    → (p : Pair) × (scan (get_or table c unset).x pairs ≡ some p) × (p.c ≡ c)
pair-table c h k =
    read_misplaced c (get_or table c unset) (scan (get_or table c unset).x pairs)
      (unfold misplaced in none_misplaced c h) k
