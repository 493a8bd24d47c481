-- ===== src/NameCodec/Utf8/Decode.antt =====
-- `utf8_decode` against the arithmetic of UTF-8: it reads back what the encoder stores, and what it
-- accepts has a known size and range.
use c_playground.Common.{ℕ, suc, ◌+◌, ◌-◌, ◌*◌, ◌/◌, ◌%◌, ◌^◌, ◌≤◌, ◌<◌, bit_and, bit_or}
use c_playground.Common.{
  ◌≡◌, refl, ◌∙◌, arith, List, [], ◌∷◌, ◌++◌, Option, none, some, ◌⊎◌, inl, inr,
}
use c_playground.Common.{Bool-cases, length, take, All, ltb, if◌then◌else◌}
use c_playground.Common.Bits.{bit_and_low, bit_or_disjoint}
use c_playground.NameCodec.Utf8.{decode_suffix, decode_lead, decode_rest, utf8_decode}
use c_playground.NameCodec.Utf8.Encode.{utf8_bytes, utf8_size}

-- One round of the loop, on the accumulated bits.
shift_in : (u b : ℕ) → u < 2 ^ 26 → bit_or (u * 2 ^ 6 % 2 ^ 32) (bit_and b 0x3f) ≡ u * 64 + b % 64
shift_in u b h = ground (arith, bit_and_low 6 b, bit_or_disjoint 6 u (b % 64))

-- The prefix tests as ranges.
lead_range :
    (b : ℕ)
    → b < 256
    → decode_lead b ≡ (
        if ltb b 128
        then some (0, b)
        else if ltb b 192
        then none
        else if ltb b 224
        then some (1, b - 192)
        else if ltb b 240
        then some (2, b - 224)
        else if ltb b 248
        then some (3, b - 240)
        else none)
unfolding decode_lead
lead_range b h = ground (arith, bit_and_low 5 b, bit_and_low 4 b, bit_and_low 3 b)

-- A continuation byte is taken, any other byte refused.
suffix_more :
    (c u v b : ℕ) (rest : List ℕ)
    → u < 2 ^ 26
    → b / 64 ≡ 2
    → v ≡ u * 64 + b % 64
    → decode_suffix (suc c) u (b ∷ rest) ≡ decode_suffix c v rest
unfolding decode_suffix
suffix_more c u v b rest h k e = ground (arith, shift_in u b)

-- The lead, then the loop.
decode_by :
    (b c u x : ℕ) (rest : List ℕ)
    → decode_lead b ≡ some (c, u)
    → c ≤ length rest
    → decode_suffix c u rest ≡ some x
    → utf8_decode (b ∷ rest) ≡ some (c + 1, x)
unfolding utf8_decode
decode_by b c u x rest e h k = rw (e, k) (ground arith)

decode_by_inv :
    (b n x : ℕ) (rest : List ℕ)
    → utf8_decode (b ∷ rest) ≡ some (n, x)
    → (c : ℕ) × (u : ℕ) × (decode_lead b ≡ some (c, u))
      × (c ≤ length rest)
      × (decode_suffix c u rest ≡ some x)
      × (n ≡ c + 1)
unfolding utf8_decode
decode_by_inv b n x rest h = split (decode_lead b) refl h
  where
    split :
        (o : Option (ℕ × ℕ))
        → decode_lead b ≡ o
        → decode_rest (b ∷ rest) o ≡ some (n, x)
        → (c : ℕ) × (u : ℕ) × (decode_lead b ≡ some (c, u))
          × (c ≤ length rest)
          × (decode_suffix c u rest ≡ some x)
          × (n ≡ c + 1)
    split none e k = cc
    split (some (c, u)) e k = (c, u, e, ground arith, ground arith, ground arith)

-- The continuation bytes of the four forms.
suffix_one :
    (x u : ℕ) (rest : List ℕ)
    → u < 2 ^ 26
    → u ≡ x / 64
    → decode_suffix 1 u ((128 + x % 64) ∷ rest) ≡ some x
unfolding decode_suffix
suffix_one x u rest h e = suffix_more 0 u x (128 + x % 64) rest h (omega arith) (omega arith)

suffix_two :
    (x u : ℕ) (rest : List ℕ)
    → x < 2 ^ 26
    → u ≡ x / 4096
    → decode_suffix 2 u ((128 + x / 64 % 64) ∷ (128 + x % 64) ∷ rest) ≡ some x
suffix_two x u rest h e =
    suffix_more 1 u (x / 64) (128 + x / 64 % 64) ((128 + x % 64) ∷ rest) (omega arith) (omega arith)
      (omega arith)
    ∙ suffix_one x (x / 64) rest (omega arith) refl

suffix_three :
    (x u : ℕ) (rest : List ℕ)
    → x < 2 ^ 26
    → u ≡ x / 262144
    → decode_suffix 3 u ((128 + x / 4096 % 64) ∷ (128 + x / 64 % 64) ∷ (128 + x % 64) ∷ rest)
      ≡ some x
suffix_three x u rest h e =
    suffix_more 2 u (x / 4096) (128 + x / 4096 % 64) _ (omega arith) (omega arith) (omega arith)
    ∙ suffix_two x (x / 4096) rest h refl

-- `utf8_decode` reads the UTF-8 form of a code point below 2 ^ 21, whatever follows it.
pub utf8_decode-utf8_bytes :
    (x : ℕ) (rest : List ℕ)
    → x < 2 ^ 21
    → utf8_decode (utf8_bytes x ++ rest) ≡ some (utf8_size x, x)
utf8_decode-utf8_bytes x rest h = elim (Bool-cases (ltb x (2 ^ 7))) [
  | inl p ↦ rw p (
      decode_by x 0 x x rest (ground (arith, lead_range x)) (omega arith)
        (unfold decode_suffix in refl))
  | inr p ↦ elim (Bool-cases (ltb x (2 ^ 11))) [
    | inl q ↦
        rw (p, q)
          (decode_by (192 + x / 64) 1 (x / 64) x _ (ground (arith, lead_range (192 + x / 64)))
            (omega arith) (suffix_one x (x / 64) rest (omega arith) refl))
    | inr q ↦ elim (Bool-cases (ltb x (2 ^ 16))) [
      | inl r ↦
          rw (p, q, r)
            (decode_by (224 + x / 4096) 2 (x / 4096) x _
              (ground (arith, lead_range (224 + x / 4096))) (omega arith)
              (suffix_two x (x / 4096) rest (omega arith) refl))
      | inr r ↦
          rw (p, q, r)
            (decode_by (240 + x / 262144) 3 (x / 262144) x _
              (ground (arith, lead_range (240 + x / 262144))) (omega arith)
              (suffix_three x (x / 262144) rest (omega arith) refl))
    ]
  ]
]

-- What one round of the loop has read.
suffix_inv :
    (n u x : ℕ) (s : List ℕ)
    → u < 2 ^ 26
    → decode_suffix (suc n) u s ≡ some x
    → (b : ℕ) × (t : List ℕ) × (s ≡ b ∷ t)
      × (b / 64 ≡ 2)
      × (decode_suffix n (u * 64 + b % 64) t ≡ some x)
unfolding decode_suffix
suffix_inv n u x [] h e = cc
suffix_inv n u x (b ∷ t) h e = (b, t, refl, ground arith, ground (arith, shift_in u b))

-- What the prefix tests accept.
lead_inv :
    (b c u : ℕ)
    → b < 256
    → decode_lead b ≡ some (c, u)
    → ((c ≡ 0) × (b ≡ u) × (u < 128))
      ⊎ ((c ≡ 1) × (b ≡ 192 + u) × (u < 32))
      ⊎ ((c ≡ 2) × (b ≡ 224 + u) × (u < 16))
      ⊎ ((c ≡ 3) × (b ≡ 240 + u) × (u < 8))
lead_inv b c u h e = ground (arith, lead_range b)

-- What is known of `c` bytes of `s` that decode to the code point `x`.
pub record Decoded (s : List ℕ) (c x : ℕ) : Type 0 where
  pub within : c ≤ length s
  pub small : (1 ≤ c) × (c ≤ 4)
  pub value : x < 2 ^ 21
  pub shortest : utf8_size x ≤ c
  pub same : c ≡ utf8_size x → take c s ≡ utf8_bytes x

one_Decoded : (u : ℕ) (s : List ℕ) → u < 128 → Decoded (u ∷ s) 1 u
one_Decoded u s h = ground arith

two_Decoded :
    (u a x : ℕ) (s : List ℕ)
    → u < 32
    → a / 64 ≡ 2
    → x ≡ u * 64 + a % 64
    → Decoded ((192 + u) ∷ a ∷ s) 2 x
two_Decoded u a x s h p e = record {
  within = omega arith;
  small = omega arith;
  value = omega arith;
  shortest = ground arith;
  same = λ k. ground arith;
}

three_Decoded :
    (u a b x : ℕ) (s : List ℕ)
    → u < 16
    → a / 64 ≡ 2
    → b / 64 ≡ 2
    → x ≡ (u * 64 + a % 64) * 64 + b % 64
    → Decoded ((224 + u) ∷ a ∷ b ∷ s) 3 x
three_Decoded u a b x s h p q e = record {
  within = omega arith;
  small = omega arith;
  value = omega arith;
  shortest = ground arith;
  same = λ k. ground arith;
}

four_Decoded :
    (u a b c x : ℕ) (s : List ℕ)
    → u < 8
    → a / 64 ≡ 2
    → b / 64 ≡ 2
    → c / 64 ≡ 2
    → x ≡ ((u * 64 + a % 64) * 64 + b % 64) * 64 + c % 64
    → Decoded ((240 + u) ∷ a ∷ b ∷ c ∷ s) 4 x
four_Decoded u a b c x s h p q r e = record {
  within = omega arith;
  small = omega arith;
  value = omega arith;
  shortest = ground arith;
  same = λ k. ground arith;
}

suffix_done : (u x : ℕ) (s : List ℕ) → decode_suffix 0 u s ≡ some x → x ≡ u
unfolding decode_suffix
suffix_done u x s e = cc

after_two :
    (u x : ℕ) (s : List ℕ) → u < 32 → decode_suffix 1 u s ≡ some x → Decoded ((192 + u) ∷ s) 2 x
after_two u x s h e =
    let (a, t, es, p, k) = suffix_inv 0 u x s (omega arith) e in
    rw es (two_Decoded u a x t h p (suffix_done _ x t k))

after_three :
    (u x : ℕ) (s : List ℕ) → u < 16 → decode_suffix 2 u s ≡ some x → Decoded ((224 + u) ∷ s) 3 x
after_three u x s h e =
    let (a, t, es, p, k) = suffix_inv 1 u x s (omega arith) e in
    let (b, t', et, q, l) = suffix_inv 0 (u * 64 + a % 64) x t (omega arith) k in
    rw (es, et) (three_Decoded u a b x t' h p q (suffix_done _ x t' l))

after_four :
    (u x : ℕ) (s : List ℕ) → u < 8 → decode_suffix 3 u s ≡ some x → Decoded ((240 + u) ∷ s) 4 x
after_four u x s h e =
    let (a, t, es, p, k) = suffix_inv 2 u x s (omega arith) e in
    let (b, t', et, q, l) = suffix_inv 1 (u * 64 + a % 64) x t (omega arith) k in
    let (c, t'', eu, r, m) = suffix_inv 0 ((u * 64 + a % 64) * 64 + b % 64) x t' (omega arith) l in
    rw (es, et, eu) (four_Decoded u a b c x t'' h p q r (suffix_done _ x t'' m))

from_lead :
    (b c u x : ℕ) (s : List ℕ)
    → decode_suffix c u s ≡ some x
    → ((c ≡ 0) × (b ≡ u) × (u < 128))
      ⊎ ((c ≡ 1) × (b ≡ 192 + u) × (u < 32))
      ⊎ ((c ≡ 2) × (b ≡ 224 + u) × (u < 16))
      ⊎ ((c ≡ 3) × (b ≡ 240 + u) × (u < 8))
    → Decoded (b ∷ s) (c + 1) x
from_lead b c u x s e (inl (p, q, r)) = rw (p, q, suffix_done u x s (rw p at e)) (one_Decoded u s r)
from_lead b c u x s e (inr (inl (p, q, r))) = rw (p, q) (after_two u x s r (rw p at e))
from_lead b c u x s e (inr (inr (inl (p, q, r)))) = rw (p, q) (after_three u x s r (rw p at e))
from_lead b c u x s e (inr (inr (inr (p, q, r)))) = rw (p, q) (after_four u x s r (rw p at e))

-- What `utf8_decode` returns on bytes: the size is between 1 and 4 and lies in the range, the code
-- point is below 2 ^ 21, and the size is at least that of the code point's UTF-8 form; where it is
-- that size, the bytes read are that form.
pub utf8_decode-Decoded :
    (s : List ℕ) (c x : ℕ) → All (λ b. b < 256) s → utf8_decode s ≡ some (c, x) → Decoded s c x
utf8_decode-Decoded [] c x h e = unfold utf8_decode in cc
utf8_decode-Decoded (b ∷ s) c x h e =
    let (n, u, k, _, l, en) = decode_by_inv b c x s e in
    rw en (from_lead b n u x s l (lead_inv b n u h.0 k))
