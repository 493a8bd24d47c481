-- ===== src/BitCount/Trailing.antt =====
-- What `__ctz` counts.
use c_playground.Common.{
  ℕ, zero, suc, ◌+◌, ◌-◌, ◌*◌, ◌/◌, ◌%◌, ◌^◌, ◌≤◌, ◌<◌, ◌≡◌, refl, ap, ap₂, ◌∙◌, bit_and, min,
  ne→==, Bool-cases, inl, inr, ltb, ltb→lt, false, arith,
}
use native.Mathlib.Nat.{pow-suc, one-le-pow, suc-mul, mul-add, pow-le-pow_right}
use c_playground.Common.Bits.{bit_and_step, same_below, same_below→eq}
use c_playground.BitCount.{less_on, one_bit_place, ctz}

pow_two : (k : ℕ) → (2 ^ suc k ≡ 2 * 2 ^ k) × 1 ≤ 2 ^ k
pow_two k = (omega (arith, pow-suc 2 k), one-le-pow k 2 (omega arith))

-- A number and its complement have no bit in common.
and_complement : (w q : ℕ) → q < 2 ^ w → bit_and q (2 ^ w - 1 - q) ≡ 0
and_complement zero q h = let e : q ≡ 0 = omega arith in rw e refl
and_complement (suc w) q h =
    let (p, one) = pow_two w in
    let half : (2 ^ suc w - 1 - q) / 2 ≡ 2 ^ w - 1 - q / 2 = omega arith in
    let ih = and_complement w (q / 2) (omega arith) in
    bit_and_step q (2 ^ suc w - 1 - q)
    ∙ ap (λ x. bit_and (q / 2) x * 2 + min (q % 2) ((2 ^ suc w - 1 - q) % 2)) half
    ∙ omega arith

odd_times : (q m : ℕ) → (2 * q + 1) * m ≡ 2 * (q * m) + m
odd_times zero m = omega arith
odd_times (suc q) m = omega (
  arith,
  odd_times q m,
  suc-mul q m,
  ap (λ x. x * m) (twice_suc q),
  suc-mul (2 * q + 2) m,
  suc-mul (2 * q + 1) m,
)
  where
    twice_suc : (q : ℕ) → 2 * suc q + 1 ≡ suc (2 * q + 2)
    twice_suc q = omega arith

swap : (q m : ℕ) → q * (2 * m) ≡ 2 * (q * m)
swap q m = ap (λ x. q * x) (omega arith) ∙ mul-add q m m ∙ omega arith

-- The lowest one of a word, and its negation.
and_negation :
    (w k q : ℕ)
    → (2 * q + 1) * 2 ^ k < 2 ^ w
    → bit_and ((2 * q + 1) * 2 ^ k) (2 ^ w - (2 * q + 1) * 2 ^ k) ≡ 2 ^ k
and_negation zero k q h = absurd (omega (arith, odd_times q (2 ^ k), (pow_two k).1))
and_negation (suc w) zero q h =
    let (p, one) = pow_two w in
    let x : (2 * q + 1) * 1 ≡ 2 * q + 1 = omega arith in
    let y : (2 ^ suc w - (2 * q + 1) * 1) / 2 ≡ 2 ^ w - 1 - q = omega arith in
    let none_common = and_complement w q (omega arith) in
    bit_and_step ((2 * q + 1) * 1) (2 ^ suc w - (2 * q + 1) * 1)
    ∙ ap
        (λ z.
          bit_and (((2 * q + 1) * 1) / 2) z * 2
          + min (((2 * q + 1) * 1) % 2) ((2 ^ suc w - (2 * q + 1) * 1) % 2))
        y
    ∙ ap
        (λ z.
          bit_and z (2 ^ w - 1 - q) * 2
          + min (((2 * q + 1) * 1) % 2) ((2 ^ suc w - (2 * q + 1) * 1) % 2))
        (omega arith)
    ∙ ap (λ z. z * 2 + min (((2 * q + 1) * 1) % 2) ((2 ^ suc w - (2 * q + 1) * 1) % 2)) none_common
    ∙ omega arith
and_negation (suc w) (suc k) q h =
    let t = (2 * q + 1) * 2 ^ k in
    let (pw, ow) = pow_two w in
    let (pk, ok) = pow_two k in
    let double : (2 * q + 1) * 2 ^ suc k ≡ 2 * t =
      omega
        (arith, odd_times q (2 ^ suc k), odd_times q (2 ^ k), ap (λ x. q * x) pk, swap q (2 ^ k)) in
    ap (λ x. bit_and x (2 ^ suc w - x)) double
    ∙ bit_and_step (2 * t) (2 ^ suc w - 2 * t)
    ∙ ap₂ (λ x y. bit_and x y * 2 + min (2 * t % 2) ((2 ^ suc w - 2 * t) % 2)) (omega arith)
        (omega arith)
    ∙ ap (λ x. x * 2 + min (2 * t % 2) ((2 ^ suc w - 2 * t) % 2)) (and_negation w k q (omega arith))
    ∙ omega arith

one_bit : (k : ℕ) → k < 32 → one_bit_place (2 ^ k) ≡ k
unfolding one_bit_place less_on same_below
one_bit = same_below→eq (λ k. one_bit_place (2 ^ k)) (λ k. k) 32 refl

-- `__ctz` of an odd number shifted by `k` places, within 32 bits, is `k`: the number of zeros at its end.
pub ctz-trailing : (k q : ℕ) → (2 * q + 1) * 2 ^ k < 2 ^ 32 → ctz ((2 * q + 1) * 2 ^ k) ≡ k
unfolding ctz
ctz-trailing k q h =
    let (p, low) = pow_two k in
    let odd = odd_times q (2 ^ k) in
    rw (ne→== ((2 * q + 1) * 2 ^ k) 0 (omega arith))
      (ap one_bit_place (and_negation 32 k q h) ∙ one_bit k (below k (omega arith)))
  where
    above : (k : ℕ) → ltb k 32 ≡ false → 32 ≤ k
    above k e = ground arith

    below : (k : ℕ) → 2 ^ k < 2 ^ 32 → k < 32
    below k l = elim (Bool-cases (ltb k 32)) [
      | inl e ↦ ltb→lt k 32 e
      | inr e ↦
          absurd
            (omega (arith, pow-le-pow_right {n = 2} (omega arith) {i = 32} {j = k} (above k e)))
    ]
