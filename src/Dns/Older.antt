-- ===== src/Dns/Older.antt =====
-- socket/dns-demo.c: `ReadName`, which `read_name` replaces for the names of answers.
use c_playground.Common.{
  ℕ, zero, suc, ◌+◌, ◌<◌, ◌≤◌, ◌≡◌, refl, sym, ap, ap₂, ◌∙◌, arith, List, [], ◌∷◌, ◌++◌, append-nil,
  append_assoc, Option, none, some, Bool, true, false, Bool-cases, inl, inr, ltb, leb, lt→ltb,
  if◌then◌else◌, length, length-append, All, get_elem?, take, drop, take-length_append,
  drop-length_append,
}
use c_playground.Dns.{Walk, walked, astray, endless, pointed, read_step, read_loop}
use c_playground.Dns.Encode.{label_bytes, dotted}
use c_playground.Dns.Decode.{IsLabel}

-- One round of the first loop at the byte `b` and the one behind it: a pointer leaves `reader` one before
-- its target, and the step by one behind the branches is part of the new `reader` here. The count moves
-- after the branches.
unfoldable pub collect_step :
    ℕ → Option ℕ → Option ℕ → List ℕ → Bool → ℕ → (ℕ → List ℕ → Bool → ℕ → Walk) → Walk
collect_step reader none next name jumped count go = astray
collect_step reader (some zero) next name jumped count go =
    walked name (if jumped then count + 1 else count)
collect_step reader (some (suc c)) next name jumped count go =
    if leb 192 (suc c)
    then elim next [ none ↦ astray | some lo ↦ go (pointed (suc c) lo) name true count ]
    else go (reader + 1) (name ++ suc c ∷ []) jumped (if jumped then count else count + 1)

unfoldable pub collect_loop : ℕ → List ℕ → ℕ → List ℕ → Bool → ℕ → Walk
unfolding collect_step
collect_loop zero packet reader name jumped count = endless
collect_loop (suc fuel) packet reader name jumped count =
    collect_step reader (get_elem? packet reader) (get_elem? packet (reader + 1)) name jumped count
      (collect_loop fuel packet)

unfoldable pub behind_dot : List ℕ → Option (List ℕ) → Option (List ℕ)
behind_dot label none = none
behind_dot label (some rest) = some (label ++ b'.' ∷ rest)

-- The second loop from the index `i` on: `none` when a length goes past the end of the name.
unfoldable pub convert_loop : ℕ → List ℕ → Option (List ℕ)
unfolding behind_dot
convert_loop zero s = some []
convert_loop (suc fuel) [] = some []
convert_loop (suc fuel) (p ∷ s) =
    let rest = convert_loop fuel (drop p s) in
    if leb p (length s) then behind_dot (take p s) rest else none

-- How `ReadName` ends: with the name and the count, or with an access outside of its block.
pub data OlderName : Type 0 where
  older_name : List ℕ → ℕ → OlderName
  past_block : OlderName
  before_block : OlderName
  outside_packet : OlderName
  unended_walk : OlderName

-- `name[i-1] = '\0'`
unfoldable pub cut_dot : ℕ → Option (List ℕ) → OlderName
cut_dot count none = past_block
cut_dot count (some []) = before_block
cut_dot count (some (c ∷ s)) = older_name (take (length s) (c ∷ s)) count

unfoldable pub convert : Walk → OlderName
unfolding convert_loop cut_dot
convert astray = outside_packet
convert endless = unended_walk
convert (walked name count) =
    if ltb (length name) 256 then cut_dot count (convert_loop (length name) name) else past_block

-- `ReadName(packet + reader, packet, &count)`
unfoldable pub older_read_name : ℕ → List ℕ → ℕ → OlderName
unfolding collect_loop convert
older_read_name fuel packet reader = convert (collect_loop fuel packet reader [] false 1)

step_agrees :
    (r : ℕ) (o o' : Option ℕ) (name : List ℕ) (jump : Bool) (n : ℕ)
    (go : ℕ → List ℕ → Bool → ℕ → Walk)
    → collect_step r o o' name jump n go ≡ read_step r o o' name jump n go
step_agrees r none o' name jump n go = unfold collect_step read_step in refl
step_agrees r (some zero) o' name jump n go = unfold collect_step read_step in refl
step_agrees r (some (suc c)) o' name jump n go =
    unfold collect_step read_step in
    elim (Bool-cases (ltb (suc c) 0xc0)) [
      | inl low ↦ rw (low, small (suc c) low) refl
      | inr high ↦ rw (high, large (suc c) high) refl
    ]
  where
    small : (c : ℕ) → ltb c 0xc0 ≡ true → leb 192 c ≡ false
    small c h = ground arith

    large : (c : ℕ) → ltb c 0xc0 ≡ false → leb 192 c ≡ true
    large c h = ground arith

loop_agrees :
    (fuel : ℕ) (packet : List ℕ) (r : ℕ) (name : List ℕ) (jump : Bool) (n : ℕ)
    → collect_loop fuel packet ≡ read_loop fuel packet
    → collect_loop (suc fuel) packet r name jump n ≡ read_loop (suc fuel) packet r name jump n
loop_agrees fuel packet r name jump n e =
    unfold collect_loop read_loop in
    step_agrees r (get_elem? packet r) (get_elem? packet (r + 1)) name jump n
      (collect_loop fuel packet)
    ∙ ap (read_step r (get_elem? packet r) (get_elem? packet (r + 1)) name jump n) e

-- `ReadName` and `read_name` collect the same bytes of every packet, with the same count.
pub collect_loop-read_loop :
    (fuel : ℕ) (packet : List ℕ) (r : ℕ) (name : List ℕ) (jump : Bool) (n : ℕ)
    → collect_loop fuel packet r name jump n ≡ read_loop fuel packet r name jump n
collect_loop-read_loop zero packet r name jump n = unfold collect_loop read_loop in refl
collect_loop-read_loop (suc fuel) packet r name jump n =
    loop_agrees fuel packet r name jump n
      (λ i q s j k. collect_loop-read_loop fuel packet q s j k i)

-- The labels with a dot behind each.
abbrev closed_by_dots : List (List ℕ) → List ℕ
closed_by_dots [] = []
closed_by_dots (l ∷ ls) = l ++ b'.' ∷ closed_by_dots ls

room : (a b : ℕ) → a ≤ b → leb a b ≡ true
room a b h = ground arith

convert_loop_label :
    (fuel p : ℕ) (l s r : List ℕ)
    → p ≡ length l
    → convert_loop fuel s ≡ some r
    → convert_loop (suc fuel) (p ∷ l ++ s) ≡ some (l ++ b'.' ∷ r)
convert_loop_label fuel p l s r e k =
    unfold convert_loop in
    rw (e, in_name)
      (ap₂ behind_dot (take-length_append l s) (ap (convert_loop fuel) (drop-length_append l s) ∙ k)
        ∙ (unfold behind_dot in refl))
  where
    in_name : leb (length l) (length (l ++ s)) ≡ true
    in_name = room (length l) (length (l ++ s)) (omega (arith, length-append l s))

convert_loop-labels :
    (fuel : ℕ) (ls : List (List ℕ))
    → All IsLabel ls
    → length ls < fuel
    → convert_loop fuel (label_bytes ls) ≡ some (closed_by_dots ls)
convert_loop-labels zero ls h f = absurd (omega arith)
convert_loop-labels (suc fuel) [] h f = unfold convert_loop in refl
convert_loop-labels (suc fuel) (l ∷ ls) h f =
    convert_loop_label fuel _ l (label_bytes ls) (closed_by_dots ls) (omega (arith, h.0.1))
      (convert_loop-labels fuel ls h.1 (omega arith))

closed_by_dots-dotted :
    (l : List ℕ) (ls : List (List ℕ)) → closed_by_dots (l ∷ ls) ≡ (l ++ dotted ls) ++ b'.' ∷ []
closed_by_dots-dotted l [] = ap (λ s. s ++ b'.' ∷ []) (sym (append-nil l))
closed_by_dots-dotted l (m ∷ ls) =
    ap (λ s. l ++ b'.' ∷ s) (closed_by_dots-dotted m ls)
    ∙ sym (append_assoc l (dotted (m ∷ ls)) (b'.' ∷ []))

cut_dot_last : (count : ℕ) (s : List ℕ) → cut_dot count (some (s ++ b'.' ∷ [])) ≡ older_name s count
unfolding cut_dot
cut_dot_last count [] = refl
cut_dot_last count (c ∷ s) =
    let size : length (s ++ b'.' ∷ []) ≡ suc (length s) =
      omega (arith, length-append s (b'.' ∷ [])) in
    ap (λ k. older_name (take k (c ∷ s ++ b'.' ∷ [])) count) size
    ∙ ap (λ t. older_name (c ∷ t) count) (take-length_append s (b'.' ∷ []))

length-label_bytes_bound : (ls : List (List ℕ)) → length ls ≤ length (label_bytes ls)
length-label_bytes_bound [] = omega arith
length-label_bytes_bound (l ∷ ls) =
    omega (arith, length-append l (label_bytes ls), length-label_bytes_bound ls)

-- A name of one label or more, of 1 to 254 bytes each and of less than 256 bytes together, that
-- `read_name` collects is given by `ReadName` with dots, and with the same count.
pub older_read_name-read_loop :
    (fuel : ℕ) (packet : List ℕ) (r n : ℕ) (l : List ℕ) (ls : List (List ℕ))
    → All IsLabel (l ∷ ls)
    → length (label_bytes (l ∷ ls)) < 256
    → read_loop fuel packet r [] false 1 ≡ walked (label_bytes (l ∷ ls)) n
    → older_read_name fuel packet r ≡ older_name (l ++ dotted ls) n
older_read_name-read_loop fuel packet r n l ls h room_left e =
    unfold older_read_name in
    ap convert (collect_loop-read_loop fuel packet r [] false 1 ∙ e)
    ∙ (unfold convert in
        rw (lt→ltb (length (label_bytes (l ∷ ls))) 256 room_left) (
          ap (cut_dot n) (
            convert_loop-labels (length (label_bytes (l ∷ ls))) (l ∷ ls) h
              (omega (arith, length-label_bytes_bound ls, length-append l (label_bytes ls), h.0.0))
            ∙ ap some (closed_by_dots-dotted l ls))
          ∙ cut_dot_last n (l ++ dotted ls)))

-- The name of the root, which has no bytes before its zero, makes `ReadName` write before its block.
pub older_read_name_root :
    (fuel : ℕ) (packet : List ℕ) (r n : ℕ)
    → read_loop fuel packet r [] false 1 ≡ walked [] n
    → older_read_name fuel packet r ≡ before_block
older_read_name_root fuel packet r n e =
    unfold older_read_name in
    ap convert (collect_loop-read_loop fuel packet r [] false 1 ∙ e)
    ∙ (unfold convert convert_loop cut_dot in refl)
