-- ===== src/Dns/Collect.antt =====
-- `read_name`: plain and compressed names, the count of bytes they take, and pointers to themselves.
use c_playground.Common.{
  ℕ, zero, suc, ◌+◌, ◌<◌, ◌≤◌, ◌≡◌, refl, sym, ap, ap₂, ◌∙◌, arith, List, [], ◌∷◌, ◌++◌, append-nil,
  append_assoc, some, Bool, true, false, ltb, lt→ltb, if◌then◌else◌, length, All, get_elem?, drop,
}
use c_playground.Dns.{
  walked, endless, pointed, read_step, read_loop, name_of, finish_name, read_name, decoded,
  name_decode,
}
use c_playground.Dns.Encode.{label_bytes, dotted}
use c_playground.Dns.Decode.{IsLabel, name_decode-label_bytes}

-- The bytes `s` stand in the packet from the index `r` on.
abbrev pub Stands : List ℕ → ℕ → List ℕ → Type 0
Stands packet r [] = Unit {0}
Stands packet r (c ∷ s) = (get_elem? packet r ≡ some c) × Stands packet (r + 1) s

-- A byte of a name that is neither the end nor a pointer.
abbrev pub IsPlain : ℕ → Type 0
IsPlain c = (0 < c) × (c < 0xc0)

-- The count moves only before the first jump.
abbrev counted : Bool → ℕ → ℕ → ℕ
counted jump n k = if jump then n else n + k

step_plain :
    (fuel : ℕ) (packet : List ℕ) (r c : ℕ) (name : List ℕ) (jump : Bool) (n : ℕ)
    → get_elem? packet r ≡ some c
    → IsPlain c
    → read_loop (suc fuel) packet r name jump n
      ≡ read_loop fuel packet (r + 1) (name ++ c ∷ []) jump (counted jump n 1)
step_plain fuel packet r zero name jump n e h = absurd (omega (arith, h.0))
step_plain fuel packet r (suc c) name jump n e h =
    unfold read_loop in
    ap (λ o. read_step r o (get_elem? packet (r + 1)) name jump n (read_loop fuel packet)) e
    ∙ (unfold read_step in rw (lt→ltb (suc c) 0xc0 h.1) refl)

step_end :
    (fuel : ℕ) (packet : List ℕ) (r : ℕ) (name : List ℕ) (jump : Bool) (n : ℕ)
    → get_elem? packet r ≡ some 0
    → read_loop (suc fuel) packet r name jump n ≡ walked name (if jump then n + 1 else n)
step_end fuel packet r name jump n e =
    unfold read_loop in
    ap (λ o. read_step r o (get_elem? packet (r + 1)) name jump n (read_loop fuel packet)) e
    ∙ (unfold read_step in refl)

step_jump :
    (fuel : ℕ) (packet : List ℕ) (r hi lo : ℕ) (name : List ℕ) (jump : Bool) (n : ℕ)
    → get_elem? packet r ≡ some hi
    → get_elem? packet (r + 1) ≡ some lo
    → 0xc0 ≤ hi
    → read_loop (suc fuel) packet r name jump n ≡ read_loop fuel packet (pointed hi lo) name true n
step_jump fuel packet r zero lo name jump n e k h = absurd (omega arith)
step_jump fuel packet r (suc hi) lo name jump n e k h =
    unfold read_loop in
    ap₂ (λ o o'. read_step r o o' name jump n (read_loop fuel packet)) e k
    ∙ (unfold read_step in rw (large (suc hi) h) refl)
  where
    large : (c : ℕ) → 0xc0 ≤ c → ltb c 0xc0 ≡ false
    large c h = ground arith

loop_cong :
    {f f' r r' n n' : ℕ} {name name' : List ℕ} (packet : List ℕ) (jump : Bool)
    → f ≡ f'
    → r ≡ r'
    → name ≡ name'
    → n ≡ n'
    → read_loop f packet r name jump n ≡ read_loop f' packet r' name' jump n'
loop_cong packet jump a b c d = λ i. read_loop (a i) packet (b i) (c i) jump (d i)

counted_zero : (jump : Bool) (n : ℕ) → n ≡ counted jump n 0
counted_zero true n = refl
counted_zero false n = omega arith

counted-suc : (jump : Bool) (n k : ℕ) → counted jump (counted jump n 1) k ≡ counted jump n (suc k)
counted-suc true n k = refl
counted-suc false n k = omega arith

read_plain :
    (s : List ℕ) (fuel : ℕ) (packet : List ℕ) (r : ℕ) (name : List ℕ) (jump : Bool) (n : ℕ)
    → Stands packet r s
    → All IsPlain s
    → read_loop (length s + fuel) packet r name jump n
      ≡ read_loop fuel packet (r + length s) (name ++ s) jump (counted jump n (length s))
read_plain [] fuel packet r name jump n h k =
    loop_cong packet jump (omega arith) (omega arith) (sym (append-nil name)) (counted_zero jump n)
read_plain (c ∷ s) fuel packet r name jump n h k =
    loop_cong packet jump (omega arith) refl refl refl
    ∙ step_plain (length s + fuel) packet r c name jump n h.0 k.0
    ∙ read_plain s fuel packet (r + 1) (name ++ c ∷ []) jump (counted jump n 1) h.1 k.1
    ∙ loop_cong packet jump refl (omega arith) (append_assoc name (c ∷ []) s)
        (counted-suc jump n (length s))

-- A name of plain bytes up to a zero is collected, and counted with the zero.
pub read_loop_plain :
    (s : List ℕ) (fuel : ℕ) (packet : List ℕ) (r : ℕ)
    → Stands packet r s
    → All IsPlain s
    → get_elem? packet (r + length s) ≡ some 0
    → read_loop (length s + suc fuel) packet r [] false 1 ≡ walked s (1 + length s)
read_loop_plain s fuel packet r h k e =
    read_plain s (suc fuel) packet r [] false 1 h k
    ∙ step_end fuel packet (r + length s) s false (1 + length s) e

-- A name whose first part ends in a pointer to its second part is collected whole, and counted as the
-- first part and the two bytes of the pointer.
pub read_loop_pointer :
    (s s' : List ℕ) (fuel : ℕ) (packet : List ℕ) (r hi lo : ℕ)
    → Stands packet r s
    → All IsPlain s
    → get_elem? packet (r + length s) ≡ some hi
    → get_elem? packet (r + length s + 1) ≡ some lo
    → 0xc0 ≤ hi
    → Stands packet (pointed hi lo) s'
    → All IsPlain s'
    → get_elem? packet (pointed hi lo + length s') ≡ some 0
    → read_loop (length s + suc (length s' + suc fuel)) packet r [] false 1
      ≡ walked (s ++ s') (length s + 2)
read_loop_pointer s s' fuel packet r hi lo h k e e' p h' k' z =
    read_plain s (suc (length s' + suc fuel)) packet r [] false 1 h k
    ∙ step_jump (length s' + suc fuel) packet (r + length s) hi lo s false (1 + length s) e e' p
    ∙ read_plain s' (suc fuel) packet (pointed hi lo) s true (1 + length s) h' k'
    ∙ step_end fuel packet (pointed hi lo + length s') (s ++ s') true (1 + length s) z
    ∙ ap (walked (s ++ s')) (omega arith)

-- A name of two labels or more, of fewer than 256 bytes together, of which each byte is neither 0 nor
-- 0xc0 or more, the lengths of the labels included, so that a label has 1 to 191 bytes, and which stands in the packet
-- in two parts, the first of them ended by a pointer to the second and the second by a zero, is read as the dotted
-- name, and counted as the part before the pointer and the pointer.
pub read_name_compressed :
    (s s' : List ℕ) (fuel : ℕ) (packet : List ℕ) (r hi lo : ℕ) (old : List ℕ)
    → (l m : List ℕ) (ls : List (List ℕ)) → Stands packet r s
    → All IsPlain s
    → get_elem? packet (r + length s) ≡ some hi
    → get_elem? packet (r + length s + 1) ≡ some lo
    → 0xc0 ≤ hi
    → Stands packet (pointed hi lo) s'
    → All IsPlain s'
    → get_elem? packet (pointed hi lo + length s') ≡ some 0
    → s ++ s' ≡ label_bytes (l ∷ m ∷ ls)
    → IsLabel l
    → IsLabel m
    → All IsLabel ls
    → length (s ++ s') < 256
    → length ls < fuel
    → read_name (length s + suc (length s' + suc fuel)) packet r old
      ≡ name_of
          (decoded ((l ++ dotted (m ∷ ls)) ++ 0 ∷ 0 ∷ drop (length (s ++ s') + 1) old))
          (length s + 2)
read_name_compressed s s' fuel packet r hi lo old l m ls h k e e' p h' k' z same il im ils room f =
    unfold read_name in
    ap (finish_name all old) (read_loop_pointer s s' fuel packet r hi lo h k e e' p h' k' z)
    ∙ (unfold finish_name in
        rw (lt→ltb (length (s ++ s')) 256 room) (
          ap (λ d. name_of d (length s + 2))
            (ap (λ b. name_decode all (b ++ 0 ∷ drop (length (s ++ s') + 1) old)) same
              ∙ name_decode-label_bytes all l m ls (drop (length (s ++ s') + 1) old) il im ils
                  (omega arith))))
  where
    all : ℕ
    all = length s + suc (length s' + suc fuel)

-- A pointer that points to itself is followed without end: no fuel is enough.
pub read_loop_endless :
    (fuel : ℕ) (packet : List ℕ) (r hi lo : ℕ) (name : List ℕ) (jump : Bool) (n : ℕ)
    → get_elem? packet r ≡ some hi
    → get_elem? packet (r + 1) ≡ some lo
    → 0xc0 ≤ hi
    → pointed hi lo ≡ r
    → read_loop fuel packet r name jump n ≡ endless
read_loop_endless zero packet r hi lo name jump n e k h p = unfold read_loop in refl
read_loop_endless (suc fuel) packet r hi lo name jump n e k h p =
    step_jump fuel packet r hi lo name jump n e k h
    ∙ ap (λ q. read_loop fuel packet q name true n) p
    ∙ read_loop_endless fuel packet r hi lo name true n e k h p
