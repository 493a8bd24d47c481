-- ===== src/Dns/Decode.antt =====
-- `name_decode` on the bytes of labels: the dotted name comes back.
use c_playground.Common.{
  ℕ, zero, suc, ◌+◌, ◌%◌, ◌<◌, ◌≡◌, refl, sym, ap, ap₂, ◌∙◌, arith, List, [], ◌∷◌, ◌++◌, append-nil,
  append_assoc, Option, some, length, length-append, All, All-append, get_elem?, take,
  take-length_append, drop-length_append, c_string, c_string_nul,
}
use c_playground.Dns.{
  name_encode, Decoding, decoded, prepend, next_label, decode_step, decode_loop, move_back,
  name_decode,
}
use c_playground.Dns.Encode.{label_bytes, dotted, AreLabels, name_encode-label_bytes}

-- A label that `name_decode` reads: 1 to 254 bytes, none of them NUL.
abbrev pub IsLabel : List ℕ → Type 0
IsLabel l = (0 < length l) × (length l < 255) × All (λ c. 0 < c) l

get_elem?-behind :
    (l : List ℕ) (x : ℕ) (rest : List ℕ) → get_elem? (l ++ x ∷ rest) (length l) ≡ some x
get_elem?-behind [] x rest = refl
get_elem?-behind (c ∷ l) x rest = get_elem?-behind l x rest

decode_loop_label :
    (fuel : ℕ) (x : ℕ) (l t : List ℕ)
    → decode_loop (suc fuel) (suc (length l)) (x ∷ l ++ t)
      ≡ prepend (x ∷ l) (decode_step t (decode_loop fuel))
unfolding decode_loop
decode_loop_label fuel x l t =
    ap₂ (λ a b. prepend (x ∷ a) (decode_step b (decode_loop fuel))) (take-length_append l t)
      (drop-length_append l t)

abbrev outcome : List ℕ → ℕ → (ℕ → List ℕ → Decoding) → Option ℕ → Decoding
outcome t n go o = next_label t n o (go n t)

decode_step_last :
    (m0 : ℕ) (m rest : List ℕ) (go : ℕ → List ℕ → Decoding)
    → m0 ≡ length m
    → length m < 255
    → decode_step (m0 ∷ m ++ 0 ∷ rest) go ≡ decoded (b'.' ∷ m ++ 0 ∷ rest)
unfolding decode_step next_label
decode_step_last m0 m rest go e h =
    let n : (m0 + 1) % 256 ≡ suc (length m) = omega arith in
    rw n (ap (outcome (b'.' ∷ m ++ 0 ∷ rest) (suc (length m)) go) (get_elem?-behind m 0 rest))

decode_step_next :
    (m0 : ℕ) (m t : List ℕ) (c : ℕ) (go : ℕ → List ℕ → Decoding)
    → m0 ≡ length m
    → length m < 255
    → 0 < c
    → decode_step (m0 ∷ m ++ c ∷ t) go ≡ go (suc (length m)) (b'.' ∷ m ++ c ∷ t)
unfolding decode_step next_label
decode_step_next m0 m t zero go e h k = absurd (omega arith)
decode_step_next m0 m t (suc c) go e h k =
    let n : (m0 + 1) % 256 ≡ suc (length m) = omega arith in
    rw n (ap (outcome (b'.' ∷ m ++ suc c ∷ t) (suc (length m)) go) (get_elem?-behind m (suc c) t))

-- `label_bytes` and `dotted` before further bytes.
abbrev packed : List (List ℕ) → List ℕ → List ℕ
packed [] t = t
packed (l ∷ ls) t = length l % 256 ∷ l ++ packed ls t

abbrev dots : List (List ℕ) → List ℕ → List ℕ
dots [] t = t
dots (l ∷ ls) t = b'.' ∷ l ++ dots ls t

label_bytes-packed : (ls : List (List ℕ)) (t : List ℕ) → label_bytes ls ++ t ≡ packed ls t
label_bytes-packed [] t = refl
label_bytes-packed (l ∷ ls) t =
    ap (λ s. length l % 256 ∷ s)
      (append_assoc l (label_bytes ls) t ∙ ap (λ s. l ++ s) (label_bytes-packed ls t))

dotted-dots : (ls : List (List ℕ)) (t : List ℕ) → dotted ls ++ t ≡ dots ls t
dotted-dots [] t = refl
dotted-dots (l ∷ ls) t =
    ap (λ s. b'.' ∷ s) (append_assoc l (dotted ls) t ∙ ap (λ s. l ++ s) (dotted-dots ls t))

decode_loop-packed :
    (fuel x : ℕ) (l m : List ℕ) (ls : List (List ℕ)) (rest : List ℕ)
    → IsLabel m
    → All IsLabel ls
    → length ls < fuel
    → decode_loop fuel (suc (length l)) (x ∷ l ++ packed (m ∷ ls) (0 ∷ rest))
      ≡ decoded (x ∷ l ++ dots (m ∷ ls) (0 ∷ rest))
decode_loop-packed zero x l m ls rest h k f = absurd (omega arith)
decode_loop-packed (suc fuel) x l m [] rest h k f =
    decode_loop_label fuel x l _
    ∙ ap (prepend (x ∷ l)) (decode_step_last _ m rest (decode_loop fuel) (omega (arith, h.1)) h.1)
    ∙ (unfold prepend in refl)
decode_loop-packed (suc fuel) x l m (m' ∷ ls) rest h k f =
    decode_loop_label fuel x l _
    ∙ ap (prepend (x ∷ l)) (
        decode_step_next _ m _ _ (decode_loop fuel) (omega (arith, h.1)) h.1
          (omega (arith, k.0.0, k.0.1))
        ∙ decode_loop-packed fuel b'.' m m' ls rest k.0 k.1 (omega arith))
    ∙ (unfold prepend in refl)

take_through :
    (s : List ℕ) (x : ℕ) (rest : List ℕ) → take (suc (length s)) (s ++ x ∷ rest) ≡ s ++ x ∷ []
take_through [] x rest = refl
take_through (c ∷ s) x rest = ap (λ t. c ∷ t) (take_through s x rest)

label_bytes_positive : (ls : List (List ℕ)) → All IsLabel ls → All (λ c. 0 < c) (label_bytes ls)
label_bytes_positive [] h = tt
label_bytes_positive (l ∷ ls) h = (
  omega (arith, h.0.0, h.0.1),
  All-append (λ c. 0 < c) l (label_bytes ls) h.0.2 (label_bytes_positive ls h.1),
)

length-label_bytes : (ls : List (List ℕ)) → length (label_bytes ls) ≡ length (dotted ls)
length-label_bytes [] = refl
length-label_bytes (l ∷ ls) = ap suc (
    length-append l (label_bytes ls)
    ∙ omega (arith, length-label_bytes ls)
    ∙ sym (length-append l (dotted ls)))

move_back_host :
    (x : ℕ) (host : List ℕ) (c : ℕ) (rest : List ℕ)
    → move_back (suc (length host)) (decoded (x ∷ host ++ c ∷ rest))
      ≡ decoded (host ++ c ∷ c ∷ rest)
unfolding move_back
move_back_host x host c rest =
    ap₂ (λ a b. decoded (a ++ b)) (take_through host c rest) (drop-length_append host (c ∷ rest))
    ∙ ap decoded (append_assoc host (c ∷ []) (c ∷ rest))

-- The bytes of two labels or more, of 1 to 254 bytes each, become the dotted name, followed by two NULs;
-- the rest of the buffer stays. Any fuel from the number of labels but one on is enough.
pub name_decode-label_bytes :
    (fuel : ℕ) (l m : List ℕ) (ls : List (List ℕ)) (rest : List ℕ)
    → IsLabel l
    → IsLabel m
    → All IsLabel ls
    → length ls < fuel
    → name_decode fuel (label_bytes (l ∷ m ∷ ls) ++ 0 ∷ rest)
      ≡ decoded ((l ++ dotted (m ∷ ls)) ++ 0 ∷ 0 ∷ rest)
name_decode-label_bytes fuel l m ls rest h k hs f =
    unfold name_decode in
    ap₂ move_back size loop ∙ move_back_host (length l % 256) (l ++ dotted (m ∷ ls)) 0 rest
  where
    size :
        length (c_string (label_bytes (l ∷ m ∷ ls) ++ 0 ∷ rest))
        ≡ suc (length (l ++ dotted (m ∷ ls)))
    size =
        ap length (
          c_string_nul (label_bytes (l ∷ m ∷ ls)) rest
            (label_bytes_positive (l ∷ m ∷ ls) (h, (k, hs))))
        ∙ length-label_bytes (l ∷ m ∷ ls)

    first : (length l % 256 + 1) % 256 ≡ suc (length l)
    first = omega (arith, h.1)

    loop :
        decode_loop fuel ((length l % 256 + 1) % 256) (label_bytes (l ∷ m ∷ ls) ++ 0 ∷ rest)
        ≡ decoded (length l % 256 ∷ (l ++ dotted (m ∷ ls)) ++ 0 ∷ rest)
    loop =
        ap₂ (decode_loop fuel) first (label_bytes-packed (l ∷ m ∷ ls) (0 ∷ rest))
        ∙ decode_loop-packed fuel (length l % 256) l m ls rest k hs f
        ∙ ap (λ s. decoded (length l % 256 ∷ s))
            (sym (
              append_assoc l (dotted (m ∷ ls)) (0 ∷ rest)
              ∙ ap (λ s. l ++ s) (dotted-dots (m ∷ ls) (0 ∷ rest))))

-- A host of two labels or more, of 1 to 254 bytes other than NUL and the dot, comes back from
-- `name_encode` and `name_decode`.
pub name_decode-name_encode :
    (fuel : ℕ) (l m : List ℕ) (ls : List (List ℕ)) (rest : List ℕ)
    → AreLabels (l ∷ m ∷ ls)
    → IsLabel l
    → IsLabel m
    → All IsLabel ls
    → length ls < fuel
    → name_decode fuel (name_encode (l ++ dotted (m ∷ ls)) ++ rest)
      ≡ decoded ((l ++ dotted (m ∷ ls)) ++ 0 ∷ 0 ∷ rest)
name_decode-name_encode fuel l m ls rest d h k hs f =
    ap (λ s. name_decode fuel (s ++ rest)) (name_encode-label_bytes l (m ∷ ls) d.0 d.1)
    ∙ ap (name_decode fuel) (append_assoc (label_bytes (l ∷ m ∷ ls)) (0 ∷ []) rest)
    ∙ name_decode-label_bytes fuel l m ls rest h k hs f

-- A name of one label, of 1 to 254 bytes, with two NULs behind it gets two dots at its end.
pub name_decode_single :
    (fuel : ℕ) (l rest : List ℕ)
    → IsLabel l
    → name_decode (suc fuel) (label_bytes (l ∷ []) ++ 0 ∷ 0 ∷ rest)
      ≡ decoded (l ++ b'.' ∷ b'.' ∷ 0 ∷ rest)
name_decode_single fuel l rest h =
    unfold name_decode in
    ap₂ move_back size loop ∙ move_back_host (length l % 256) l b'.' (0 ∷ rest)
  where
    size : length (c_string (label_bytes (l ∷ []) ++ 0 ∷ 0 ∷ rest)) ≡ suc (length l)
    size =
        ap length
          (c_string_nul (label_bytes (l ∷ [])) (0 ∷ rest) (label_bytes_positive (l ∷ []) (h, tt)))
        ∙ ap (λ s. suc (length s)) (append-nil l)

    first : (length l % 256 + 1) % 256 ≡ suc (length l)
    first = omega (arith, h.1)

    loop :
        decode_loop (suc fuel) ((length l % 256 + 1) % 256) (label_bytes (l ∷ []) ++ 0 ∷ 0 ∷ rest)
        ≡ decoded (length l % 256 ∷ l ++ b'.' ∷ 0 ∷ rest)
    loop =
        ap₂ (decode_loop (suc fuel)) first (label_bytes-packed (l ∷ []) (0 ∷ 0 ∷ rest))
        ∙ decode_loop_label fuel (length l % 256) l (0 ∷ 0 ∷ rest)
        ∙ (unfold prepend decode_step next_label in refl)
