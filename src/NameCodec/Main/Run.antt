-- ===== src/NameCodec/Main/Run.antt =====
-- Runs of `main`: they end, what they print, and when the buffer is overrun.
use c_playground.Common.{ℕ, zero, suc, ◌+◌, ◌*◌, ◌≤◌, ◌<◌, ◌^◌, ◌≡◌, ◌≢◌, refl, ap, ◌∙◌, arith}
use c_playground.Common.{List, [], ◌∷◌, ◌++◌, append_assoc, append-nil, ◌⊎◌, none, some, false}
use c_playground.Common.{
  length, length-append, length-drop, drop-length_append, lt→ltb, ltb→lt, drop, All, All-drop, ltb,
  ◌==◌, if◌then◌else◌, inl, inr, Bool-cases, Option-cases, ne→==,
}
use native.Mathlib.Nat.{zero-add}
use c_playground.NameCodec.Utf8.{utf8_decode}
use c_playground.NameCodec.Utf8.Encode.{utf8_bytes, utf8_size}
use c_playground.NameCodec.Utf8.Decode.{utf8_decode-Decoded, utf8_decode-utf8_bytes}
use c_playground.NameCodec.Stream.{
  stream_next, stream_next-some, stream_next-none, length-utf8_bytes, minus_one,
}
use c_playground.NameCodec.Tables.{Pair}
use c_playground.NameCodec.Search.{find_pair}
use c_playground.NameCodec.Search.Lookup.{find_pair_range}
use c_playground.NameCodec.Main.{invalid, overrun, finish, name_loop, buffer_size}

decode_cases :
    (bs : List ℕ) → (utf8_decode bs ≡ none) ⊎ ((c : ℕ) × (u : ℕ) × (utf8_decode bs ≡ some (c, u)))
decode_cases bs = elim (Option-cases (utf8_decode bs)) [
  | inl e ↦ inl e
  | inr ((c, u), e) ↦ inr (c, u, e)
]

module _ (fuel : ℕ) (bs out : List ℕ) where
  -- At the end of the bytes, or at malformed ones, the loop stops.
  pub loop_end :
      utf8_decode bs ≡ none → name_loop (suc fuel) (record { bytes = bs }) out ≡ some (finish out)
  loop_end e = unfold name_loop in rw (stream_next-none bs e)

  -- A name that is read and found.
  pub loop_name :
      (c u : ℕ) (y : Pair)
      → utf8_decode bs ≡ some (c, u)
      → u < 2 ^ 21
      → find_pair u ≡ some y
      → name_loop (suc fuel) (record { bytes = bs }) out ≡ (
          if ltb (length out) buffer_size
          then name_loop fuel (record { bytes = drop c bs }) (out ++ y.c ∷ [])
          else some overrun)
  loop_name c u y e h k = elim (Bool-cases (ltb (length out) buffer_size)) [
    | inl room ↦ rw room (
        unfold name_loop in
        rw (read, other, k, room) (ap (λ s. name_loop fuel s (out ++ y.c ∷ [])) (rw read)))
    | inr full ↦ rw full (unfold name_loop in rw (read, other, k, full))
  ]
    where
      read : stream_next (record { bytes = bs }) ≡ (u, some c, record { bytes = drop c bs })
      read = stream_next-some bs c u e

      other : (u == minus_one) ≡ false
      other = ne→== u minus_one (omega arith)

  -- A code point that is no name.
  pub loop_unknown :
      (c u : ℕ)
      → utf8_decode bs ≡ some (c, u)
      → u < 2 ^ 21
      → find_pair u ≡ none
      → name_loop (suc fuel) (record { bytes = bs }) out ≡ some invalid
  loop_unknown c u e h k =
      unfold name_loop in rw (stream_next-some bs c u e, ne→== u minus_one (omega arith), k)

-- The UTF-8 text of a list of names.
abbrev pub text : List Pair → List ℕ
text [] = []
text (p ∷ ps) = utf8_bytes p.x ++ text ps

abbrev pub chars : List Pair → List ℕ
chars [] = []
chars (p ∷ ps) = p.c ∷ chars ps

-- A pair that the search finds under its own code point.
abbrev pub IsName : Pair → Type 0
IsName p = (p.x < 2 ^ 21) × (find_pair p.x ≡ some p)

pub length-chars : (ps : List Pair) → length (chars ps) ≡ length ps
length-chars [] = refl
length-chars (p ∷ ps) = omega (arith, length-chars ps)

size_pos : (x : ℕ) → 1 ≤ utf8_size x
size_pos x = ground arith

pub length-text : (ps : List Pair) → length ps ≤ length (text ps)
length-text [] = omega arith
length-text (p ∷ ps) = omega (
  arith,
  length-append (utf8_bytes p.x) (text ps),
  length-utf8_bytes p.x,
  size_pos p.x,
  length-text ps,
)

-- Names, one after the other, are looked up in order.
pub loop_names :
    (ps : List Pair) (fuel : ℕ) (rest out : List ℕ)
    → All IsName ps
    → length out + length ps ≤ buffer_size
    → name_loop (length ps + fuel) (record { bytes = text ps ++ rest }) out
      ≡ name_loop fuel (record { bytes = rest }) (out ++ chars ps)
loop_names [] fuel rest out h l = rw (append-nil, zero-add)
loop_names (p ∷ ps) fuel rest out h l =
    let more : length (p ∷ ps) + fuel ≡ suc (length ps + fuel) = omega arith in
    rw more (
      loop_name (length ps + fuel) (text (p ∷ ps) ++ rest) out (utf8_size p.x) p.x p
        (rw append_assoc (utf8_decode-utf8_bytes p.x (text ps ++ rest) h.0.0)) h.0.0 h.0.1
      ∙ rw (lt→ltb (length out) buffer_size (omega arith), append_assoc, drop_size)
          (loop_names ps fuel rest (out ++ p.c ∷ []) h.1
              (omega (arith, length-append out (p.c ∷ [])))
            ∙ rw append_assoc))
  where
    drop_size : drop (utf8_size p.x) (utf8_bytes p.x ++ (text ps ++ rest)) ≡ text ps ++ rest
    drop_size = rw (← length-utf8_bytes p.x) (drop-length_append (utf8_bytes p.x) (text ps ++ rest))

-- With a round for each byte and one more the loop ends.
pub loop-ne-none :
    (fuel : ℕ) (bs out : List ℕ)
    → All (λ b. b < 256) bs
    → length bs < fuel
    → name_loop fuel (record { bytes = bs }) out ≢ none
loop-ne-none zero bs out h l = absurd (omega arith)
loop-ne-none (suc fuel) bs out h l = elim (decode_cases bs) [
  | inl e ↦ λ z. cc (loop_end fuel bs out e)
  | inr (c, u, e) ↦
      let d = utf8_decode-Decoded bs c u h e in
      elim (Option-cases (find_pair u)) [
        | inl k ↦ λ z. cc (loop_unknown fuel bs out c u e d.value k)
        | inr (y, k) ↦ ground (
          arith,
          loop_name fuel bs out c u y e d.value k,
          d.small,
          d.within,
          length-drop c bs,
          loop-ne-none fuel (drop c bs) (out ++ y.c ∷ []) (All-drop _ c bs h),
        )
      ]
]

-- A name takes three bytes at least, so few bytes cannot overrun the buffer.
pub loop-ne-overrun :
    (fuel : ℕ) (bs out : List ℕ)
    → All (λ b. b < 256) bs
    → 3 * length out + length bs < 3 * buffer_size
    → name_loop fuel (record { bytes = bs }) out ≢ some overrun
loop-ne-overrun zero bs out h l = λ z. unfold name_loop in cc
loop-ne-overrun (suc fuel) bs out h l = elim (decode_cases bs) [
  | inl e ↦ rw (loop_end fuel bs out e) (unfold finish in ground arith)
  | inr (c, u, e) ↦
      let d = utf8_decode-Decoded bs c u h e in
      elim (Option-cases (find_pair u)) [
        | inl k ↦ λ z. cc (loop_unknown fuel bs out c u e d.value k)
        | inr (y, k) ↦ ground (
          arith,
          loop_name fuel bs out c u y e d.value k,
          d.within,
          d.shortest,
          find_pair_range u y (omega (arith, d.value)) k,
          length-append out (y.c ∷ []),
          length-drop c bs,
          loop-ne-overrun fuel (drop c bs) (out ++ y.c ∷ []) (All-drop _ c bs h),
        )
      ]
]

pub loop_overrun :
    (ps : List Pair) (fuel : ℕ) (out : List ℕ)
    → All IsName ps
    → length ps < fuel
    → length out ≤ buffer_size
    → buffer_size ≤ length out + length ps
    → name_loop fuel (record { bytes = text ps }) out ≡ some overrun
loop_overrun ps zero out h l m n = absurd (omega arith)
loop_overrun [] (suc fuel) out h l m n =
    loop_end fuel [] out (unfold utf8_decode in refl) ∙ (unfold finish in ground arith)
loop_overrun (p ∷ ps) (suc fuel) out h l m n =
    loop_name fuel (text (p ∷ ps)) out (utf8_size p.x) p.x p
      (utf8_decode-utf8_bytes p.x (text ps) h.0.0) h.0.0 h.0.1
    ∙ rw drop_size (elim (Bool-cases (ltb (length out) buffer_size)) [
      | inl room ↦ rw room (
          loop_overrun ps fuel (out ++ p.c ∷ []) h.1 (omega arith)
            (omega (arith, ltb→lt _ _ room, length-append out (p.c ∷ [])))
            (omega (arith, length-append out (p.c ∷ []))))
      | inr full ↦ rw full
    ])
  where
    drop_size : drop (utf8_size p.x) (utf8_bytes p.x ++ text ps) ≡ text ps
    drop_size = rw (← length-utf8_bytes p.x) (drop-length_append (utf8_bytes p.x) (text ps))
