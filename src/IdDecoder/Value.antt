-- ===== src/IdDecoder/Value.antt =====
-- `id_decode` on digits: the number in base 32, and that no two names have the same number.
use c_playground.Common.{
  ℕ, zero, suc, ◌+◌, ◌*◌, ◌≤◌, ◌<◌, ◌≡◌, refl, ap, ap₂, ◌∙◌, inl, inr, Bool-cases, ltb, ltb→lt,
  arith, List, [], ◌∷◌, ◌++◌,
}
use c_playground.Common.{some, get_or, All, length}
use c_playground.Common.Int.{pos, ◌+ℤ◌}
use c_playground.IdDecoder.Table.{alphabet, cell, cell-digit}
use c_playground.IdDecoder.{times_32, id_decode}

-- The characters of digits.
abbrev pub spell : List ℕ → List ℕ
spell [] = []
spell (d ∷ ds) = get_or alphabet d 0 ∷ spell ds

-- The number of the first `l` digits, the first the highest.
abbrev pub value : List ℕ → ℕ → ℕ
value ds zero = 0
value ds (suc l) = value ds l * 32 + get_or ds l 0

abbrev pub IsDigit : ℕ → Type 0
IsDigit d = d < 31

spell_get :
    (ds rest : List ℕ) (i : ℕ)
    → All IsDigit ds
    → i < length ds
    → cell (get_or (spell ds ++ rest) i 0) ≡ some (pos (get_or ds i 0))
spell_get [] rest i h l = absurd (omega arith)
spell_get (d ∷ ds) rest zero h l = cell-digit d h.0
spell_get (d ∷ ds) rest (suc i) h l = spell_get ds rest i h.1 (omega arith)

decode_next :
    (p : List ℕ) (l v d : ℕ)
    → id_decode p (suc l) ≡ some (pos v)
    → cell (get_or p (suc l) 0) ≡ some (pos d)
    → id_decode p (suc (suc l)) ≡ some (pos (v * 32 + d))
decode_next p l v d e k = unfold id_decode in rw (e, k) (unfold ◌+ℤ◌ times_32 in ground arith)

-- The first `l` characters, where they spell digits, decode to their number in base 32.
pub id_decode-value :
    (ds rest : List ℕ) (l : ℕ)
    → All IsDigit ds
    → suc l ≤ length ds
    → id_decode (spell ds ++ rest) (suc l) ≡ some (pos (value ds (suc l)))
id_decode-value ds rest zero h k =
    unfold id_decode in spell_get ds rest 0 h k ∙ ap (λ n. some (pos n)) (omega arith)
id_decode-value ds rest (suc l) h k =
    decode_next (spell ds ++ rest) l (value ds (suc l)) (get_or ds (suc l) 0)
      (id_decode-value ds rest l h (omega arith)) (spell_get ds rest (suc l) h (omega arith))

digit_get : (ds : List ℕ) (i : ℕ) → All IsDigit ds → get_or ds i 0 < 31
digit_get [] i h = omega arith
digit_get (d ∷ ds) zero h = h.0
digit_get (d ∷ ds) (suc i) h = digit_get ds i h.1

value_get :
    (ds es : List ℕ) (l i : ℕ)
    → All IsDigit ds
    → All IsDigit es
    → value ds l ≡ value es l
    → i < l
    → get_or ds i 0 ≡ get_or es i 0
value_get ds es zero i h k e lt = absurd (omega arith)
value_get ds es (suc l) i h k e lt =
    let da = digit_get ds l h in
    let db = digit_get es l k in
    elim (Bool-cases (ltb i l)) [
      | inl below ↦ value_get ds es l i h k (omega arith) (ltb→lt i l below)
      | inr last ↦ let same : i ≡ l = ground arith in rw same (omega arith)
    ]

get_ext :
    (xs ys : List ℕ)
    → length xs ≡ length ys
    → ((i : ℕ) → i < length xs → get_or xs i 0 ≡ get_or ys i 0)
    → xs ≡ ys
get_ext [] [] e h = refl
get_ext [] (y ∷ ys) e h = absurd (omega arith)
get_ext (x ∷ xs) [] e h = absurd (omega arith)
get_ext (x ∷ xs) (y ∷ ys) e h =
    ap₂ ◌∷◌ (h 0 (omega arith)) (get_ext xs ys (omega arith) (λ i lt. h (suc i) (omega arith)))

-- Digits of the same number and count are the same.
pub value-injective :
    (ds es : List ℕ)
    → All IsDigit ds
    → All IsDigit es
    → length ds ≡ length es
    → value ds (length ds) ≡ value es (length es)
    → ds ≡ es
value-injective ds es h k l e =
    get_ext ds es l (λ i lt. value_get ds es (length ds) i h k (rw (← l) at e) lt)
