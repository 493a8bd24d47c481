-- ===== src/Dns/Encode.antt =====
-- `name_encode` and `ChangetoDnsNameFormat`: the two make the same bytes, those of the labels.
use c_playground.Common.{
  ℕ, zero, suc, ◌%◌, ◌<◌, ◌≤◌, ◌≡◌, ◌≢◌, refl, sym, ap, ap₂, ◌∙◌, arith, List, [], ◌∷◌, ◌++◌,
  append-nil, append_assoc, Option, none, some, inl, inr, false, Bool-cases, length, length-append,
  All, ◌==◌, ==→eq, eq→==, ne→==,
}
use c_playground.Dns.{
  strchr, encode_step, encode_loop, name_encode, change_loop, changeto_dns_name_format,
}

strchr_dot : (s : List ℕ) → strchr (b'.' ∷ s) ≡ some ([], s)
unfolding strchr
strchr_dot s = refl

abbrev found_behind : ℕ → Option (List ℕ × List ℕ) → Option (List ℕ × List ℕ)
found_behind c none = none
found_behind c (some (a, b)) = some (c ∷ a, b)

strchr_other :
    (c : ℕ) (s : List ℕ) → (c == b'.') ≡ false → strchr (c ∷ s) ≡ found_behind c (strchr s)
unfolding strchr
strchr_other c s h = rw h refl

-- The bytes of labels, each behind its length.
abbrev pub label_bytes : List (List ℕ) → List ℕ
label_bytes [] = []
label_bytes (l ∷ ls) = length l % 256 ∷ l ++ label_bytes ls

-- The labels with a dot before each.
abbrev pub dotted : List (List ℕ) → List ℕ
dotted [] = []
dotted (l ∷ ls) = b'.' ∷ l ++ dotted ls

abbrev pub IsLabelByte : ℕ → Type 0
IsLabelByte c = c ≢ b'.'

change_loop_dot :
    (label host : List ℕ)
    → change_loop label (b'.' ∷ host) ≡ length label % 256 ∷ label ++ change_loop [] host
unfolding change_loop
change_loop_dot label host = refl

change_loop_other :
    (label host : List ℕ) (c : ℕ)
    → (c == b'.') ≡ false
    → change_loop label (c ∷ host) ≡ change_loop (label ++ c ∷ []) host
unfolding change_loop
change_loop_other label host c h = rw h refl

change_loop-label :
    (label l rest : List ℕ)
    → All IsLabelByte l
    → change_loop label (l ++ rest) ≡ change_loop (label ++ l) rest
change_loop-label label [] rest h = ap (λ s. change_loop s rest) (sym (append-nil label))
change_loop-label label (c ∷ l) rest h =
    change_loop_other label (l ++ rest) c (ne→== c b'.' h.0)
    ∙ change_loop-label (label ++ c ∷ []) l rest h.1
    ∙ ap (λ s. change_loop s rest) (append_assoc label (c ∷ []) l)

strchr-label : (l rest : List ℕ) → All IsLabelByte l → strchr (l ++ b'.' ∷ rest) ≡ some (l, rest)
strchr-label [] rest h = strchr_dot rest
strchr-label (c ∷ l) rest h =
    strchr_other c (l ++ b'.' ∷ rest) (ne→== c b'.' h.0)
    ∙ ap (found_behind c) (strchr-label l rest h.1)

strchr-absent : (l : List ℕ) → All IsLabelByte l → strchr l ≡ none
strchr-absent [] h = unfold strchr in refl
strchr-absent (c ∷ l) h =
    strchr_other c l (ne→== c b'.' h.0) ∙ ap (found_behind c) (strchr-absent l h.1)

encode_loop_last :
    (fuel : ℕ) (s : List ℕ) → strchr s ≡ none → encode_loop (suc fuel) s ≡ length s % 256 ∷ s
unfolding encode_loop encode_step
encode_loop_last fuel s e = ap (λ o. encode_step s o (encode_loop fuel)) e

encode_loop_next :
    (fuel : ℕ) (s a b : List ℕ)
    → strchr s ≡ some (a, b)
    → encode_loop (suc fuel) s ≡ length a % 256 ∷ a ++ encode_loop fuel b
unfolding encode_loop encode_step
encode_loop_next fuel s a b e = ap (λ o. encode_step s o (encode_loop fuel)) e

abbrev pub AreLabels : List (List ℕ) → Type 0
AreLabels ls = All (All IsLabelByte) ls

encode_loop-labels :
    (fuel : ℕ) (l : List ℕ) (ls : List (List ℕ))
    → All IsLabelByte l
    → AreLabels ls
    → length ls < fuel
    → encode_loop fuel (l ++ dotted ls) ≡ label_bytes (l ∷ ls)
encode_loop-labels zero l ls h k f = absurd (omega arith)
encode_loop-labels (suc fuel) l [] h k f =
    ap (encode_loop (suc fuel)) (append-nil l)
    ∙ encode_loop_last fuel l (strchr-absent l h)
    ∙ ap (λ s. length l % 256 ∷ s) (sym (append-nil l))
encode_loop-labels (suc fuel) l (m ∷ ls) h k f =
    encode_loop_next fuel _ l (m ++ dotted ls) (strchr-label l (m ++ dotted ls) h)
    ∙ ap (λ s. length l % 256 ∷ l ++ s) (encode_loop-labels fuel m ls k.0 k.1 (omega arith))

length-dotted : (l : List ℕ) (ls : List (List ℕ)) → length ls ≤ length (l ++ dotted ls)
length-dotted l [] = omega arith
length-dotted l (m ∷ ls) = omega (arith, length-append l (dotted (m ∷ ls)), length-dotted m ls)

-- A host of labels becomes their bytes, each label behind its length, and a NUL.
pub name_encode-label_bytes :
    (l : List ℕ) (ls : List (List ℕ))
    → All IsLabelByte l
    → AreLabels ls
    → name_encode (l ++ dotted ls) ≡ label_bytes (l ∷ ls) ++ 0 ∷ []
name_encode-label_bytes l ls h k =
    unfold name_encode in
    ap (λ s. s ++ 0 ∷ []) (encode_loop-labels _ l ls h k (omega (arith, length-dotted l ls)))

change_loop-labels :
    (l : List ℕ) (ls : List (List ℕ))
    → All IsLabelByte l
    → AreLabels ls
    → change_loop [] ((l ++ dotted ls) ++ b'.' ∷ []) ≡ label_bytes (l ∷ ls)
change_loop-labels l [] h k =
    ap (λ s. change_loop [] (s ++ b'.' ∷ [])) (append-nil l)
    ∙ change_loop-label [] l (b'.' ∷ []) h
    ∙ (unfold change_loop in refl)
change_loop-labels l (m ∷ ls) h k =
    ap (change_loop []) (append_assoc l (dotted (m ∷ ls)) (b'.' ∷ []))
    ∙ change_loop-label [] l _ h
    ∙ change_loop_dot l _
    ∙ ap (λ s. length l % 256 ∷ l ++ s) (change_loop-labels m ls k.0 k.1)

-- Every host is made of labels.
labels_of :
    (host : List ℕ)
    → (l : List ℕ) × ((ls : List (List ℕ)) × (All IsLabelByte l
          × AreLabels ls
          × (host ≡ l ++ dotted ls)))
labels_of [] = ([], ([], (tt, tt, refl)))
labels_of (c ∷ host) =
    let (l, (ls, (h, k, e))) = labels_of host in
    elim (Bool-cases (c == b'.')) [
      | inl dot ↦ ([], (l ∷ ls, (tt, (h, k), ap₂ ◌∷◌ (==→eq c b'.' dot) e)))
      | inr other ↦
          (c ∷ l, (ls, ((λ same. cc (other, eq→== c b'.' same), h), k, ap (λ s. c ∷ s) e)))
    ]

-- `name_encode` and `ChangetoDnsNameFormat` make the same bytes of every host.
pub name_encode-changeto_dns_name_format :
    (host : List ℕ) → name_encode host ≡ changeto_dns_name_format host
name_encode-changeto_dns_name_format host =
    let (l, (ls, (h, k, e))) = labels_of host in
    ap name_encode e
    ∙ name_encode-label_bytes l ls h k
    ∙ sym (
        ap changeto_dns_name_format e
        ∙ (unfold changeto_dns_name_format in ap (λ s. s ++ 0 ∷ []) (change_loop-labels l ls h k)))
