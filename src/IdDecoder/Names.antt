-- ===== src/IdDecoder/Names.antt =====
-- `check` and `main` on names.
use c_playground.Common.{ℕ, suc, ◌≡◌, ◌≢◌, refl, sym, ap, ap₂, ◌∙◌, arith, List, [], ◌∷◌, ◌++◌}
use c_playground.Common.{
  none, some, All-append, inl, inr, ◌⊎◌, get_or, All, length, drop, length-append, ◌==◌, Bool-cases,
  true, false, ==→eq, eq→==, ne→==, Option-cases, append-nil, drop-length_append,
}
use c_playground.Common.Int.{ℤ, pos, negsuc}
use c_playground.IdDecoder.Table.{alphabet, cell, cell-digit, cell_range}
use c_playground.IdDecoder.{
  id_decode, valid, invalid, outside, check_chars, check_name, check, ids, log_ids, report, main,
}
use c_playground.IdDecoder.Value.{spell, value, IsDigit, id_decode-value, value-injective}

length-spell : (ds : List ℕ) → length (spell ds) ≡ length ds
length-spell [] = refl
length-spell (d ∷ ds) = ap suc (length-spell ds)

spell-append : (ds es : List ℕ) → spell (ds ++ es) ≡ spell ds ++ spell es
spell-append [] es = refl
spell-append (d ∷ ds) es = ap (λ r. get_or alphabet d 0 ∷ r) (spell-append ds es)

check_chars_digit :
    (name cs : List ℕ) (c d : ℕ)
    → cell c ≡ some (pos d)
    → check_chars name (c ∷ cs) ≡ check_chars name cs
unfolding check_chars cell
check_chars_digit name cs c d e = rw e

check_chars-spell : (name ds : List ℕ) → All IsDigit ds → check_chars name (spell ds) ≡ valid name
check_chars-spell name [] h = unfold check_chars in refl
check_chars-spell name (d ∷ ds) h =
    check_chars_digit name (spell ds) (get_or alphabet d 0) d (cell-digit d h.0)
    ∙ check_chars-spell name ds h.1

check_chars-none : (name cs : List ℕ) (c : ℕ) → cell c ≡ none → check_chars name (c ∷ cs) ≡ outside
unfolding check_chars cell
check_chars-none name cs c e = rw e

check_chars_unset :
    (name cs : List ℕ) (c : ℕ) → cell c ≡ some (negsuc 0) → check_chars name (c ∷ cs) ≡ invalid
unfolding check_chars cell
check_chars_unset name cs c e = rw e

check_chars_valid :
    (name cs q : List ℕ)
    → check_chars name cs ≡ valid q
    → (name ≡ q) × ((ds : List ℕ) × All IsDigit ds × (cs ≡ spell ds))
check_chars_valid name [] q e = (unfold check_chars in cc, ([], tt, refl))
check_chars_valid name (c ∷ cs) q e = elim (Option-cases (cell c)) [
  | inl k ↦ cc (check_chars-none name cs c k)
  | inr (z, k) ↦ elim (cell_range c z k) [
    | inl m ↦ cc (check_chars_unset name cs c (k ∙ ap some m))
    | inr (d, h, m, n) ↦
        let (same, (ds, hs, l)) =
          check_chars_valid name cs q (sym (check_chars_digit name cs c d (k ∙ ap some m)) ∙ e) in
        (same, (d ∷ ds, (h, hs), ap₂ ◌∷◌ n l))
  ]
]

-- A name: `$Z` and the digits of the two ids.
abbrev pub name : List ℕ → List ℕ → List ℕ
name ds es = b'$' ∷ b'Z' ∷ spell ds ++ spell es

-- A name may be given with its `$` or without it.
pub check-prefix : (p : List ℕ) → get_or p 0 0 ≢ b'$' → check p ≡ check (b'$' ∷ p)
unfolding check
check-prefix p h = rw (ne→== (get_or p 0 0) b'$' h) (ground arith)

check-name :
    (ds es : List ℕ)
    → length ds ≡ 4
    → length es ≡ 6
    → All IsDigit (ds ++ es)
    → check (name ds es) ≡ valid (name ds es)
check-name ds es l m h =
    unfold check check_name in
    rw (eq→== (length (name ds es)) 12 size) (
      ap (check_chars (name ds es)) (sym (spell-append ds es))
      ∙ check_chars-spell (name ds es) (ds ++ es) h)
  where
    size : length (name ds es) ≡ 12
    size = omega (arith, length-append (spell ds) (spell es), length-spell ds, length-spell es)

check_name_valid :
    (p q : List ℕ)
    → check_name p ≡ valid q
    → (p ≡ q) × (get_or p 1 0 ≡ b'Z') × ((ds : List ℕ) × All IsDigit ds × (drop 2 p ≡ spell ds))
check_name_valid p q e = elim (Bool-cases (get_or p 1 0 == b'Z')) [
  | inl z ↦
      let (same, spelt) = check_chars_valid p (drop 2 p) q (sym (yes_z z) ∙ e) in
      (same, ==→eq _ _ z, spelt)
  | inr z ↦ cc (no_z z)
]
  where
    yes_z : (get_or p 1 0 == b'Z') ≡ true → check_name p ≡ check_chars p (drop 2 p)
    yes_z z = unfold check_name in rw z

    no_z : (get_or p 1 0 == b'Z') ≡ false → check_name p ≡ invalid
    no_z z = unfold check_name in rw z

check_split :
    (p q : List ℕ)
    → check p ≡ valid q
    → (length p ≡ 12) × (check_name p ≡ valid q)
      ⊎ (length p ≡ 11) × (check_name (b'$' ∷ p) ≡ valid q)
unfolding check
check_split p q e = ground arith

-- A valid verdict is given only to twelve characters that have `Z` second and go on with digits,
-- and they are the argument or the argument behind a `$`.
pub check_valid :
    (p q : List ℕ)
    → check p ≡ valid q
    → (length q ≡ 12)
      × (get_or q 1 0 ≡ b'Z')
      × ((p ≡ q) ⊎ (b'$' ∷ p ≡ q))
      × ((ds : List ℕ) × All IsDigit ds × (drop 2 q ≡ spell ds))
check_valid p q e = elim (check_split p q e) [
  | inl (l, k) ↦
      let (same, z, (ds, h, d)) = check_name_valid p q k in
      (ap length (sym same) ∙ l, rw (← same) z, inl same, (ds, h, rw (← same) d))
  | inr (l, k) ↦
      let (same, z, (ds, h, d)) = check_name_valid (b'$' ∷ p) q k in
      (ap length (sym same) ∙ omega arith, rw (← same) z, inr same, (ds, h, rw (← same) d))
]

report_ids :
    (p : List ℕ) (x y : ℤ)
    → id_decode (drop 2 p) 4 ≡ some x
    → id_decode (drop 6 p) 6 ≡ some y
    → report (valid p) ≡ ids x y
unfolding report log_ids
report_ids p x y e k = ap₂ log_ids e k

report-name :
    (ds es : List ℕ)
    → length ds ≡ 4
    → length es ≡ 6
    → All IsDigit ds
    → All IsDigit es
    → report (valid (name ds es)) ≡ ids (pos (value ds 4)) (pos (value es 6))
report-name ds es l m h k = report_ids (name ds es) _ _ first second
  where
    first : id_decode (spell ds ++ spell es) 4 ≡ some (pos (value ds 4))
    first = id_decode-value ds (spell es) 3 h (omega arith)

    tail : drop 4 (spell ds ++ spell es) ≡ spell es
    tail = rw (← length-spell ds ∙ l) (drop-length_append (spell ds) (spell es))

    second : id_decode (drop 6 (name ds es)) 6 ≡ some (pos (value es 6))
    second = rw (tail, ← append-nil (spell es)) (id_decode-value es [] 5 k (omega arith))

-- `main` on `$Z` and ten digits other than the last prints the two numbers that they are in base 32.
pub main-name :
    (ds es : List ℕ)
    → length ds ≡ 4
    → length es ≡ 6
    → All IsDigit ds
    → All IsDigit es
    → main (some (name ds es)) ≡ ids (pos (value ds 4)) (pos (value es 6))
main-name ds es l m h k =
    unfold main in
    ap report (check-name ds es l m (All-append IsDigit ds es h k)) ∙ report-name ds es l m h k

-- `main` on `Z` and ten digits other than the last, without the `$`, prints the same.
pub main-name_bare :
    (ds es : List ℕ)
    → length ds ≡ 4
    → length es ≡ 6
    → All IsDigit ds
    → All IsDigit es
    → main (some (drop 1 (name ds es))) ≡ ids (pos (value ds 4)) (pos (value es 6))
main-name_bare ds es l m h k =
    same_main _ _ (check-prefix (drop 1 (name ds es)) (λ e. absurd (omega arith)))
    ∙ main-name ds es l m h k
  where
    same_main : (p q : List ℕ) → check p ≡ check q → main (some p) ≡ main (some q)
    same_main p q e = unfold main in ap report e

-- Names that `main` prints the same ids for have the same digits.
pub main-injective :
    (ds es ds' es' : List ℕ)
    → length ds ≡ 4
    → length es ≡ 6
    → length ds' ≡ 4
    → length es' ≡ 6
    → All IsDigit ds
    → All IsDigit es
    → All IsDigit ds'
    → All IsDigit es'
    → main (some (name ds es)) ≡ main (some (name ds' es'))
    → (ds ≡ ds') × (es ≡ es')
main-injective ds es ds' es' l m l' m' h k h' k' e =
    let both : ids (pos (value ds 4)) (pos (value es 6))
        ≡ ids (pos (value ds' 4)) (pos (value es' 6)) =
      sym (main-name ds es l m h k) ∙ e ∙ main-name ds' es' l' m' h' k' in
    let first : value ds 4 ≡ value ds' 4 = cc both in
    let second : value es 6 ≡ value es' 6 = cc both in
    (
      value-injective ds ds' h h' (l ∙ sym l') (ap (value ds) l ∙ first ∙ sym (ap (value ds') l')),
      value-injective es es' k k' (m ∙ sym m') (ap (value es) m ∙ second ∙ sym (ap (value es') m')),
    )
