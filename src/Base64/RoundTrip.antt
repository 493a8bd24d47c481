-- ===== src/Base64/RoundTrip.antt =====
-- `base64_decode` after `base64_encode`.
use c_playground.Common.{
  ℕ, ◌+◌, ◌-◌, ◌*◌, ◌/◌, ◌%◌, ◌<◌, ◌≡◌, refl, sym, ap, ◌∙◌, arith, append-nil, List, [], ◌∷◌, ◌++◌,
}
use c_playground.Common.{
  length, replicate, All, All-weaken, Bool, true, false, some, c_string, c_string-append_zeros,
}
use c_playground.Common.{ltb, ltb→lt, if◌then◌else◌}
use c_playground.Base64.Tables.{
  encode_char, decode_char, decode_char-encode_char, decode_char-padding,
}
use c_playground.Base64.{
  Group, group_b0, group_b1, group_b2, group_b3, emit, encode_loop, base64_encode, decode_group,
  decode_loop, encode_size, decode_size, base64_decode,
}
use c_playground.Base64.Groups.{group_digits, group_bytes}
use c_playground.Base64.Shape.{base64_decode_ok, length-base64_encode}

abbrev IsByte : ℕ → Type 0
IsByte b = b < 256

decode_step :
    (q0 q1 q2 q3 : ℕ) (rest : List ℕ) (g : Group)
    → decode_group q0 q1 q2 q3 ≡ g
    → decode_loop (q0 ∷ q1 ∷ q2 ∷ q3 ∷ rest) ≡ g.b0 ∷ g.b1 ∷ g.b2 ∷ decode_loop rest
decode_step q0 q1 q2 q3 rest g e =
    unfold decode_loop in ap (λ (h : Group). h.b0 ∷ h.b1 ∷ h.b2 ∷ decode_loop rest) e

emit_chars :
    (n : ℕ) (g : Group)
    → emit n g
      ≡ encode_char (group_b0 g)
        ∷ encode_char (group_b1 g)
        ∷ (if ltb n 2 then b'=' else encode_char (group_b2 g))
        ∷ (if ltb n 3 then b'=' else encode_char (group_b3 g))
        ∷ []
emit_chars n g = unfold emit in refl

-- The digit behind a character, padding or not.
read_char : (d x : ℕ) → d ≡ x → x < 64 → decode_char (encode_char d) ≡ x
read_char d x e h = rw e (decode_char-encode_char x h)

read_padded :
    (pad : Bool) (d x : ℕ)
    → d ≡ x
    → x < 64
    → (pad ≡ true → x ≡ 0)
    → decode_char (if pad then b'=' else encode_char d) ≡ x
read_padded true d x e h p = decode_char-padding ∙ sym (p refl)
read_padded false d x e h p = read_char d x e h

-- A group of `n` bytes, padded with zeros, comes back from the four characters stored for it.
decode-emit :
    (n x y z : ℕ) (rest : List ℕ)
    → (x < 256) × (y < 256) × (z < 256)
    → (n < 2 → y ≡ 0)
    → (n < 3 → z ≡ 0)
    → decode_loop (emit n (record { b0 = x; b1 = y; b2 = z }) ++ rest)
      ≡ x ∷ y ∷ z ∷ decode_loop rest
decode-emit n x y z rest (hx, hy, hz) py pz =
    let d = group_digits x y z hx hy hz in
    rw emit_chars (
      decode_step _ _ _ _ rest (record { b0 = x; b1 = y; b2 = z })
        (group_bytes _ _ _ _ (x / 4) (x % 4 * 16 + y / 16) (y % 16 * 4 + z / 64) (z % 64)
            (
              read_char _ _ d.0 (omega arith),
              read_char _ _ d.1 (omega arith),
              read_padded (ltb n 2) _ _ d.2 (omega arith) (λ t. omega (arith, ltb→lt n 2 t)),
              read_padded (ltb n 3) _ _ d.3 (omega arith) (λ t. omega (arith, ltb→lt n 3 t)),
            )
            (omega arith)
          ∙ ground arith))

-- The zeros that the padding decodes to.
abbrev pub pad : List ℕ → ℕ
pad src = (3 - length src % 3) % 3

encode_loop_rounds :
    (x y z : ℕ) (src : List ℕ)
    → (encode_loop (x ∷ []) ≡ emit 1 (record { b0 = x; b1 = 0; b2 = 0 }))
      × (encode_loop (x ∷ y ∷ []) ≡ emit 2 (record { b0 = x; b1 = y; b2 = 0 }))
      × (encode_loop (x ∷ y ∷ z ∷ src)
          ≡ emit 3 (record { b0 = x; b1 = y; b2 = z }) ++ encode_loop src)
encode_loop_rounds x y z src = unfold encode_loop in (refl, refl, refl)

decode_loop_nil : decode_loop [] ≡ []
decode_loop_nil = unfold decode_loop in refl

decode_loop-encode_loop :
    (src : List ℕ) → All IsByte src → decode_loop (encode_loop src) ≡ src ++ replicate (pad src) 0
decode_loop-encode_loop [] h = unfold decode_loop encode_loop in refl
decode_loop-encode_loop (x ∷ []) h =
    rw ((encode_loop_rounds x 0 0 []).0, ← append-nil (emit 1 (record { b0 = x; b1 = 0; b2 = 0 })))
      (decode-emit 1 x 0 0 [] (omega arith) (λ t. refl) (λ t. refl) ∙ rw decode_loop_nil)
decode_loop-encode_loop (x ∷ y ∷ []) h =
    rw ((encode_loop_rounds x y 0 []).1, ← append-nil (emit 2 (record { b0 = x; b1 = y; b2 = 0 })))
      (decode-emit 2 x y 0 [] (omega arith) (λ t. absurd (omega arith)) (λ t. refl)
        ∙ rw decode_loop_nil)
decode_loop-encode_loop (x ∷ y ∷ z ∷ src) h = rw (encode_loop_rounds x y z src).2 (
    decode-emit 3 x y z (encode_loop src) (omega arith) (λ t. absurd (omega arith))
      (λ t. absurd (omega arith))
    ∙ ap (λ r. x ∷ y ∷ z ∷ r)
        (decode_loop-encode_loop src h.1.1.1 ∙ ap (λ n. src ++ replicate n 0) (omega arith)))

-- `base64_decode` of what `base64_encode` stores for a C string that is not empty gives, if its block
-- is given, the string padded with NULs to a multiple of three bytes, which is the same C string.
pub base64_decode-base64_encode :
    (malloc : ℕ → Bool) (src : List ℕ)
    → 0 < length src
    → All (λ b. (0 < b) × (b < 256)) src
    → malloc (decode_size (base64_encode src)) ≡ true
    → (out : List ℕ) × (base64_decode malloc (some (base64_encode src)) ≡ some out)
      × (out ≡ src ++ replicate (pad src) 0)
      × (c_string out ≡ src)
base64_decode-base64_encode malloc src ne h m =
    let size = length-base64_encode src in
    let size' : encode_size src ≡ (length src + 2) / 3 * 4 + 1 = unfold encode_size in refl in
    let whole : decode_loop (base64_encode src) ≡ src ++ replicate (pad src) 0 =
      unfold base64_encode in
      decode_loop-encode_loop src (All-weaken _ IsByte src (λ b k. k.1) h) in
    (
      src ++ replicate (pad src) 0,
      base64_decode_ok malloc (base64_encode src) (omega arith) (omega arith) m ∙ ap some whole,
      refl,
      c_string-append_zeros src (pad src) (All-weaken _ _ src (λ b k. k.0) h),
    )

-- Four digits as characters.
abbrev IsDigit : ℕ → Type 0
IsDigit q = (x : ℕ) × (x < 64) × (q ≡ encode_char x)

group_back :
    (x0 x1 x2 x3 : ℕ)
    → (x0 < 64) × (x1 < 64) × (x2 < 64) × (x3 < 64)
    → let g : Group = record {
      b0 = x0 * 4 + x1 / 16;
      b1 = x1 % 16 * 16 + x2 / 4;
      b2 = x2 % 4 * 64 + x3;
    } in
      (group_b0 g ≡ x0) × (group_b1 g ≡ x1) × (group_b2 g ≡ x2) × (group_b3 g ≡ x3)
group_back x0 x1 x2 x3 h =
    omega (arith, group_digits (x0 * 4 + x1 / 16) (x1 % 16 * 16 + x2 / 4) (x2 % 4 * 64 + x3))

-- On digits without padding, in groups of four, the two loops are inverse the other way round too.
pub encode_loop-decode_loop :
    (src : List ℕ) → All IsDigit src → length src % 4 ≡ 0 → encode_loop (decode_loop src) ≡ src
encode_loop-decode_loop [] h e = unfold encode_loop decode_loop in refl
encode_loop-decode_loop (a ∷ []) h e = absurd (omega arith)
encode_loop-decode_loop (a ∷ b ∷ []) h e = absurd (omega arith)
encode_loop-decode_loop (a ∷ b ∷ c ∷ []) h e = absurd (omega arith)
encode_loop-decode_loop (a ∷ b ∷ c ∷ d ∷ src)
      ((x0, h0, e0), ((x1, h1, e1), ((x2, h2, e2), ((x3, h3, e3), h)))) e =
    let (g0, g1, g2, g3) = group_back x0 x1 x2 x3 (h0, h1, h2, h3) in
    let step = decode_step a b c d src _ (
      group_bytes a b c d x0 x1 x2 x3
        (
          ap decode_char e0 ∙ decode_char-encode_char x0 h0,
          ap decode_char e1 ∙ decode_char-encode_char x1 h1,
          ap decode_char e2 ∙ decode_char-encode_char x2 h2,
          ap decode_char e3 ∙ decode_char-encode_char x3 h3,
        )
        (h0, h1, h2, h3)) in
    rw
      (
        step,
        (encode_loop_rounds _ _ _ (decode_loop src)).2,
        emit_chars,
        g0,
        g1,
        g2,
        g3,
        ← e0,
        ← e1,
        ← e2,
        ← e3,
      )
      (ap (λ r. a ∷ b ∷ c ∷ d ∷ r) (encode_loop-decode_loop src h (omega arith)))
