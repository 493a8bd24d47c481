-- ===== src/Relay/Text/Numbers.antt =====
-- Reading a printed number back, and the number of digits printed.
use c_playground.Common.{
  ℕ, zero, suc, ◌+◌, ◌-◌, ◌*◌, ◌/◌, ◌%◌, ◌^◌, ◌≤◌, ◌<◌, ◌≡◌, refl, ap, ◌∙◌, true, false, List, [],
  ◌∷◌, ◌++◌, append_assoc, ltb, ◌==◌, length, length-append, All, All-append, Bool-cases, ==→eq,
  sym, ap₂, append-nil, inl, inr, ltb→lt, min, arith, if_intro, lt→ltb, le→ltb,
}
use c_playground.Common.Int.{ℤ, pos, negsuc}
use c_playground.Common.{codes}
use c_playground.Common.Words.{IsInt}
use native.Mathlib.Nat.{pow-succ', one-le-pow}
use c_playground.Relay.Text.{
  is_digit, digit_run, decimal_digits, decimal, decimal_int, signed_run, skip_blanks, strtol,
  strtoull, is_blank, strtol_of, strtoull_of, minus, has_prefix,
}

abbrev pub IsDigit : ℕ → Type 0
IsDigit c = is_digit c ≡ true

below_ten : (d : ℕ) → d < 10 → IsDigit (b'0' + d)
below_ten d h = ground arith

digit_run_digit :
    (acc c : ℕ) (s : List ℕ)
    → IsDigit c
    → digit_run acc (c ∷ s) ≡ digit_run (acc * 10 + (c - b'0')) s
unfolding digit_run
digit_run_digit acc c s h = rw h refl

pub decimal_digits-IsDigit : (fuel n : ℕ) → All IsDigit (decimal_digits fuel n)
unfolding decimal_digits
decimal_digits-IsDigit zero n = tt
decimal_digits-IsDigit (suc fuel) n =
    if_intro (All IsDigit) (ltb n 10) (λ h. (below_ten n (ltb→lt n 10 h), tt))
      (λ _.
        All-append IsDigit (decimal_digits fuel (n / 10)) ((b'0' + n % 10) ∷ [])
          (decimal_digits-IsDigit fuel (n / 10)) (below_ten (n % 10) (omega arith), tt))

-- Behind the digits of a number the reading goes on with the number.
digit_run-digits :
    (fuel n : ℕ) (s : List ℕ)
    → n < 10 ^ fuel
    → digit_run 0 (decimal_digits fuel n ++ s) ≡ digit_run n s
unfolding decimal_digits
digit_run-digits zero n s h = ap (λ t. digit_run t s) (omega arith)
digit_run-digits (suc fuel) n s h =
    let h' : n < 10 * 10 ^ fuel = rw (pow-succ' 10 fuel) at h in
    if_intro (λ (l : List ℕ). digit_run 0 (l ++ s) ≡ digit_run n s) (ltb n 10)
      (λ b.
        digit_run_digit 0 (b'0' + n) s (below_ten n (ltb→lt n 10 b))
        ∙ ap (λ t. digit_run t s) (omega arith))
      (λ _.
        ap (λ t. digit_run 0 t) (append_assoc (decimal_digits fuel (n / 10)) _ s)
        ∙ digit_run-digits fuel (n / 10) ((b'0' + n % 10) ∷ s) (omega arith)
        ∙ digit_run_digit (n / 10) (b'0' + n % 10) s (below_ten (n % 10) (omega arith))
        ∙ ap (λ t. digit_run t s) (omega arith))

pub length-digits :
    (k fuel n : ℕ) → n < 10 ^ suc k → suc k ≤ fuel → length (decimal_digits fuel n) ≤ suc k
unfolding decimal_digits
length-digits k zero n h l = absurd (omega arith)
length-digits zero (suc fuel) n h l = let b = lt→ltb n 10 (omega arith) in rw b (omega arith)
length-digits (suc k) (suc fuel) n h l =
    let h' : n < 10 * 10 ^ suc k = rw (pow-succ' 10 (suc k)) at h in
    if_intro (λ (l : List ℕ). length l ≤ suc (suc k)) (ltb n 10) (λ _. omega arith)
      (λ _. omega (
        arith,
        length-append (decimal_digits fuel (n / 10)) ((b'0' + n % 10) ∷ []),
        length-digits k fuel (n / 10) (omega arith) (omega arith),
      ))

pub digits-length :
    (k fuel n : ℕ) → 10 ^ k ≤ n → suc k ≤ fuel → suc k ≤ length (decimal_digits fuel n)
unfolding decimal_digits
digits-length k zero n h l = absurd (omega arith)
digits-length zero (suc fuel) n h l =
    if_intro (λ (l : List ℕ). 1 ≤ length l) (ltb n 10) (λ _. omega arith)
      (λ _. omega (arith, length-append (decimal_digits fuel (n / 10)) ((b'0' + n % 10) ∷ [])))
digits-length (suc k) (suc fuel) n h l =
    let h' : 10 * 10 ^ k ≤ n = rw (pow-succ' 10 k) at h in
    let one : 1 ≤ 10 ^ k = one-le-pow k 10 (omega arith) in
    let b = le→ltb n 10 (omega arith) in
    rw b (
      omega (
        arith,
        length-append (decimal_digits fuel (n / 10)) ((b'0' + n % 10) ∷ []),
        digits-length k fuel (n / 10) (omega arith) (omega arith),
      ))

-- A number is read up to the first character that is no digit.
abbrev pub Stops : List ℕ → Type 0
Stops [] = Unit
Stops (c ∷ s) = is_digit c ≡ false

digit_run-Stops : (n : ℕ) (s : List ℕ) → Stops s → digit_run n s ≡ n
unfolding digit_run
digit_run-Stops n [] h = refl
digit_run-Stops n (c ∷ s) h = rw h refl

-- Text that starts with a digit is neither blank nor signed.
signed_digit :
    (s : List ℕ)
    → 1 ≤ length s
    → All IsDigit s
    → (r : List ℕ) → signed_run (skip_blanks (s ++ r)) ≡ (false, digit_run 0 (s ++ r))
unfolding signed_run skip_blanks
signed_digit [] h k r = absurd (omega arith)
signed_digit (c ∷ s) h k r =
    let blank : is_blank c ≡ false = ground (arith, k.0) in
    let low : (c == b'-') ≡ false = ground (arith, k.0) in
    let plus : (c == b'+') ≡ false = ground (arith, k.0) in rw blank (rw (low, plus) refl)

decimal_nonempty : (n : ℕ) → 1 ≤ length (decimal n)
unfolding decimal_digits
decimal_nonempty n =
    if_intro (λ (l : List ℕ). 1 ≤ length l) (ltb n 10) (λ _. omega arith)
      (λ _. omega (arith, length-append (decimal_digits 19 (n / 10)) ((b'0' + n % 10) ∷ [])))

signed_run-decimal :
    (n : ℕ) (r : List ℕ)
    → n < 10 ^ 20
    → Stops r
    → signed_run (skip_blanks (decimal n ++ r)) ≡ (false, n)
signed_run-decimal n r h k =
    signed_digit (decimal n) (decimal_nonempty n) (decimal_digits-IsDigit 20 n) r
    ∙ ap (λ t. (false, t)) (digit_run-digits 20 n r h ∙ digit_run-Stops n r k)

signed_minus : (s : List ℕ) → signed_run (skip_blanks (b'-' ∷ s)) ≡ (true, digit_run 0 s)
unfolding signed_run skip_blanks
signed_minus s = refl

pub strtol-decimal_int : (z : ℤ) (r : List ℕ) → IsInt z → Stops r → strtol (decimal_int z ++ r) ≡ z
strtol-decimal_int (pos n) r h k =
    ap strtol_of (signed_run-decimal n r (omega arith) k) ∙ ap pos (omega arith)
strtol-decimal_int (negsuc n) r h k =
    let least : min (suc n) (2 ^ 63) ≡ suc n = omega arith in
    ap strtol_of (
      signed_minus (decimal (suc n) ++ r)
      ∙ ap (λ t. (true, t))
          (digit_run-digits 20 (suc n) r (omega arith) ∙ digit_run-Stops (suc n) r k))
    ∙ ap minus least

pub strtoull-decimal : (n : ℕ) (r : List ℕ) → n < 2 ^ 64 → Stops r → strtoull (decimal n ++ r) ≡ n
strtoull-decimal n r h k = ap strtoull_of (signed_run-decimal n r (omega arith) k) ∙ omega arith

-- The printed values of a `short` do not start with "-65535".
has_prefix-append : (p s : List ℕ) → has_prefix p s ≡ true → (r : List ℕ) × (s ≡ p ++ r)
unfolding has_prefix
has_prefix-append [] s h = (s, refl)
has_prefix-append (c ∷ p) [] h = absurd (ground (arith, h))
has_prefix-append (c ∷ p) (b ∷ s) h = elim (Bool-cases (b == c)) [
  | inl e ↦
      let k : has_prefix p s ≡ true = rw e at h in
      let rest = has_prefix-append p s k in (rest.0, ap₂ (λ x y. x ∷ y) (==→eq b c e) rest.1)
  | inr e ↦ let k : false ≡ true = rw e at h in absurd (ground (arith, k))
]

run_grows : (acc : ℕ) (s : List ℕ) → acc ≤ digit_run acc s
unfolding digit_run
run_grows acc [] = omega arith
run_grows acc (c ∷ s) =
    if_intro (λ (t : ℕ). acc ≤ t) (is_digit c)
      (λ _. omega (arith, run_grows (acc * 10 + (c - b'0')) s)) (λ _. omega arith)

bad_value : (r : List ℕ) → 65535 ≤ digit_run 0 (codes "65535" ++ r)
unfolding digit_run
bad_value r = run_grows 65535 r

not_bad_digits : (s : List ℕ) → All IsDigit s → has_prefix (codes "-65535") s ≡ false
unfolding has_prefix
not_bad_digits [] h = refl
not_bad_digits (c ∷ s) h = let e : (c == b'-') ≡ false = ground (arith, h.0) in rw e refl

minus_prefix : (s : List ℕ) → has_prefix (codes "-65535") (b'-' ∷ s) ≡ has_prefix (codes "65535") s
unfolding has_prefix
minus_prefix s = refl

not_bad_negative : (n : ℕ) → n < 2 ^ 15 → has_prefix (codes "65535") (decimal (suc n)) ≡ false
not_bad_negative n h = elim (Bool-cases (has_prefix (codes "65535") (decimal (suc n)))) [
  | inl e ↦
      let (r, same) = has_prefix-append (codes "65535") (decimal (suc n)) e in
      let value =
        ap (λ s. digit_run 0 s) (append-nil (decimal (suc n))) ∙ ap (λ s. digit_run 0 s) same in
      absurd (
        omega (
          arith,
          bad_value r,
          sym value,
          digit_run-digits 20 (suc n) [] (omega arith),
          digit_run-Stops (suc n) [] tt,
        ))
  | inr e ↦ e
]

-- The values of a `short`.
abbrev pub IsShort : ℤ → Type 0
IsShort (pos n) = n < 2 ^ 15
IsShort (negsuc n) = n < 2 ^ 15

pub has_prefix-decimal_int :
    (z : ℤ) → IsShort z → has_prefix (codes "-65535") (decimal_int z) ≡ false
has_prefix-decimal_int (pos n) h = not_bad_digits (decimal n) (decimal_digits-IsDigit 20 n)
has_prefix-decimal_int (negsuc n) h = minus_prefix (decimal (suc n)) ∙ not_bad_negative n h
