-- ===== src/RingBuffer/Sum.antt =====
-- A whole series of weights through the window: that its sums are `int`s, what they are, and when it is full.
use c_playground.Common.{ℕ, zero, suc, ◌+◌, ◌*◌, ◌≤◌, ◌<◌, ◌≡◌, refl, ap, ◌∙◌, arith}
use c_playground.Common.{
  List, [], ◌∷◌, length, take, All, leb, ltb, ◌^◌, ◌==◌, Bool, true, false, Option, none, some,
  get_or, set, if◌then◌else◌,
}
use c_playground.Common.Int.{ℤ, pos, pos_part, neg_part, ◌+ℤ◌, ◌-ℤ◌}
use mathlib.Core.Path.{subst}
use c_playground.RingBuffer.{
  Window, weight_window_init, weight_window_add_weight, checked, take_off, with_sum,
}
use c_playground.RingBuffer.History.{Holds, added, total, init-Holds, add-Holds}

abbrev and_then : Option Window → (Window → Option Window) → Option Window
and_then none go = none
and_then (some w) go = go w

-- The calls of `weight_window_add_weight`, one after the other, as long as they have a result.
abbrev pub add_all : Window → List ℤ → Option Window
add_all w [] = some w
add_all w (v ∷ vs) = and_then (weight_window_add_weight w v) (λ w'. add_all w' vs)

-- The same, whatever the size of the sums.
abbrev all_added : Window → List ℤ → Window
all_added w [] = w
all_added w (v ∷ vs) = all_added (added w v) vs

-- The series, latest first, in front of what came before it.
abbrev pub latest_first : List ℤ → List ℤ → List ℤ
latest_first [] past = past
latest_first (v ∷ vs) past = latest_first vs (v ∷ past)

all_added-Holds :
    (vs : List ℤ) {past : List ℤ} {w : Window}
    → Holds past w
    → Holds (latest_first vs past) (all_added w vs)
all_added-Holds [] h = h
all_added-Holds (v ∷ vs) h = all_added-Holds vs (add-Holds v h)

length-all_added : (vs : List ℤ) (w : Window) → (all_added w vs).length ≡ w.length
length-all_added [] w = refl
length-all_added (v ∷ vs) w = length-all_added vs (added w v) ∙ (unfold added in refl)

length-latest_first : (vs past : List ℤ) → length (latest_first vs past) ≡ length vs + length past
length-latest_first [] past = omega arith
length-latest_first (v ∷ vs) past = omega (arith, length-latest_first vs (v ∷ past))

-- The absolute value is at most `m`.
abbrev pub Within : ℕ → ℤ → Type 0
Within m z = (pos_part z ≤ m) × (neg_part z ≤ m)

add-Within : (m n : ℕ) (a b : ℤ) → Within m a → Within n b → Within (m + n) (a +ℤ b)
unfolding ◌+ℤ◌
add-Within m n a b h k = ground arith

total-Within : (m n : ℕ) (vs : List ℤ) → All (Within m) vs → Within (n * m) (total (take n vs))
unfolding total
total-Within m zero vs h = omega arith
total-Within m (suc n) [] h = omega arith
total-Within m (suc n) (v ∷ vs) h =
    let r = add-Within m (n * m) v (total (take n vs)) h.0 (total-Within m n vs h.1) in omega arith

checked-Within : (k : ℕ) (z : ℤ) → Within k z → k < 2 ^ 31 → checked z ≡ some z
unfolding checked
checked-Within k z h r = rw (below (pos_part z) h.0, at_most (neg_part z) h.1) refl
  where
    below : (n : ℕ) → n ≤ k → ltb n (2 ^ 31) ≡ true
    below n h = ground arith

    at_most : (n : ℕ) → n ≤ k → leb n (2 ^ 31) ≡ true
    at_most n h = ground arith

take_off-some :
    (full : Bool) (old s : ℤ)
    → checked s ≡ some s
    → checked (if full then s -ℤ old else s) ≡ some (if full then s -ℤ old else s)
    → take_off full old (checked s) ≡ some (if full then s -ℤ old else s)
take_off-some true old s a b = ap (take_off true old) a ∙ (unfold take_off in b)
take_off-some false old s a b = ap (take_off false old) a ∙ (unfold take_off in refl)

-- A sum with one more weight, and the sum behind, are `int`s.
add_weight-added :
    (m : ℕ) (past : List ℤ) (w : Window) (v : ℤ)
    → Holds past w
    → All (Within m) past
    → Within m v
    → (w.length + 1) * m < 2 ^ 31
    → weight_window_add_weight w v ≡ some (added w v)
unfolding weight_window_add_weight with_sum added
add_weight-added m past w v h hp hv r =
    let l = w.length in
    let old = get_or w.buffer.blocks w.buffer.size (pos 0) in
    let before : Within (l * m) w.sum = rw h.sums (total-Within m l past hp) in
    let behind : Within (l * m) (if w.is_full then w.sum +ℤ v -ℤ old else w.sum +ℤ v) =
      rw ((add-Holds v h).sums) (total-Within m l (v ∷ past) (hv, hp)) in
    ap
      (with_sum w (record w.buffer {
        size = if w.buffer.size + 1 == w.buffer.capacity then 0 else w.buffer.size + 1;
        blocks = set w.buffer.blocks w.buffer.size v;
      }))
      (take_off-some w.is_full old (w.sum +ℤ v)
        (checked-Within ((l + 1) * m) (w.sum +ℤ v)
          (subst (λ k. Within k (w.sum +ℤ v)) (omega arith)
            (add-Within (l * m) m w.sum v before hv))
          r)
        (checked-Within (l * m) _ behind (omega arith)))

add_all-added :
    (m : ℕ) (vs past : List ℤ) (w : Window)
    → Holds past w
    → All (Within m) past
    → All (Within m) vs
    → (w.length + 1) * m < 2 ^ 31
    → add_all w vs ≡ some (all_added w vs)
add_all-added m [] past w h hp hv r = refl
add_all-added m (v ∷ vs) past w h hp hv r =
    ap (λ o. and_then o (λ w'. add_all w' vs)) (add_weight-added m past w v h hp hv.0 r)
    ∙ add_all-added m vs (v ∷ past) (added w v) (add-Holds v h) (hv.0, hp) hv.1 (unfold added in r)

-- After any series of weights of at most `m` in absolute value, where `m` times one more than `l` is an `int`, a window
-- of `l` places over enough memory, whatever that memory held, has a result: no sum leaves the range of
-- `int`, the sum is that of the latest `l` weights, and the window is full exactly when there were at least `l`.
pub window_sum :
    (memory : List ℤ) (l m : ℕ) (vs : List ℤ)
    → 0 < l
    → l ≤ length memory
    → All (Within m) vs
    → (l + 1) * m < 2 ^ 31
    → (w : Window) × ((add_all (weight_window_init memory l) vs ≡ some w)
        × (w.sum ≡ total (take l (latest_first vs [])))
        × (w.is_full ≡ leb l (length vs)))
window_sum memory l m vs p k hv r =
    let empty = weight_window_init memory l in
    let h = all_added-Holds vs (init-Holds memory l p k) in
    let e : (all_added empty vs).length ≡ l =
      length-all_added vs empty ∙ (unfold weight_window_init in refl) in
    (
      all_added empty vs,
      (
        add_all-added m vs [] empty (init-Holds memory l p k) tt hv
            (unfold weight_window_init in r),
        h.sums ∙ ap (λ n. total (take n (latest_first vs []))) e,
        h.filled ∙ rw (e, length-latest_first vs []) (ap (leb l) (omega arith)),
      ),
    )
