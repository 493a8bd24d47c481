-- ===== src/RingBuffer/History.antt =====
-- The window against its history: the blocks hold the latest weights, and the sum is theirs.
use c_playground.Common.{ℕ, zero, suc, ◌+◌, ◌-◌, ◌≢◌, ◌≤◌, ◌<◌, ◌≡◌, refl, sym, ap, ◌∙◌, arith}
use c_playground.Common.{
  List, [], ◌∷◌, Bool, true, false, length, get_or, set, take, ltb, leb, ◌==◌, if◌then◌else◌, inl,
  inr, Bool-cases,
}
use c_playground.Common.{length-set, get_or-set_self, get_or-set_ne}
use c_playground.Common.Int.{ℤ, pos, ◌+ℤ◌, ◌-ℤ◌, int_laws}
use c_playground.RingBuffer.{Window, weight_window_init, ring_buffer_get}

-- The window with a weight more, whatever the size of the sums.
unfoldable pub added : Window → ℤ → Window
unfolding ring_buffer_get
added w weight =
    let (p, buffer) = ring_buffer_get w.buffer in
    let sum : ℤ = w.sum +ℤ weight in
    let old : ℤ = get_or buffer.blocks p (pos 0) in
    record w {
      sum = if w.is_full then sum -ℤ old else sum;
      is_full = if w.is_full then true else buffer.size == 0;
      buffer = record buffer { blocks = set buffer.blocks p weight };
    }

unfoldable pub total : List ℤ → ℤ
total [] = pos 0
total (w ∷ ws) = w +ℤ total ws

-- The index of the block that holds the `k`-th latest weight, where the next goes to `s` of `l`.
abbrev pub slot : ℕ → ℕ → ℕ → ℕ
slot l s k = if ltb k s then s - suc k else (s + l) - suc k

-- `w` after the weights `past`, latest first.
pub record Holds (past : List ℤ) (w : Window) : Type 0 where
  pub some_room : 0 < w.length
  pub cap : w.buffer.capacity ≡ w.length
  pub room : w.length ≤ length w.buffer.blocks
  pub next : w.buffer.size < w.length
  pub filled : w.is_full ≡ leb w.length (length past)
  pub filling : length past < w.length → w.buffer.size ≡ length past
  pub held :
      (k : ℕ)
      → k < w.length
      → k < length past
      → get_or w.buffer.blocks (slot w.length w.buffer.size k) (pos 0) ≡ get_or past k (pos 0)
  pub sums : w.sum ≡ total (take w.length past)

take_next :
    (m : ℕ) (past : List ℤ)
    → m < length past
    → total (take (suc m) past) ≡ total (take m past) +ℤ get_or past m (pos 0)
unfolding total
take_next m [] h = absurd (omega arith)
take_next zero (w ∷ past) h = omega int_laws
take_next (suc m) (w ∷ past) h = rw (take_next m past (omega arith)) (omega int_laws)

take_all : (m : ℕ) (past : List ℤ) → length past ≤ m → take m past ≡ past
take_all zero [] h = refl
take_all zero (w ∷ past) h = absurd (omega arith)
take_all (suc m) [] h = refl
take_all (suc m) (w ∷ past) h = ap (λ r. w ∷ r) (take_all m past (omega arith))

take_cons :
    (m : ℕ) (w : ℤ) (past : List ℤ)
    → 0 < m
    → total (take m (w ∷ past)) ≡ w +ℤ total (take (m - 1) past)
unfolding total
take_cons zero w past h = absurd (omega arith)
take_cons (suc m) w past h = ap (λ n. w +ℤ total (take n past)) (omega arith)

-- A new window over enough memory holds nothing.
pub init-Holds :
    (memory : List ℤ) (l : ℕ) → 0 < l → l ≤ length memory → Holds [] (weight_window_init memory l)
unfolding weight_window_init
init-Holds memory l p h = record {
  some_room = p;
  cap = refl;
  room = h;
  next = p;
  filled = ground arith;
  filling = λ k. refl;
  held = λ k a b. absurd (omega arith);
  sums = unfold total in ap total (sym (take_all l [] (omega arith)));
}

-- The blocks in order of age, before and after the next index moves on from `s`.
abbrev after : ℕ → ℕ → ℕ
after c s = if s + 1 == c then 0 else s + 1

slot_first : (l s : ℕ) → s < l → slot l (after l s) 0 ≡ s
slot_first l s h = ground arith

slot_later : (l s k : ℕ) → s < l → suc k < l → slot l (after l s) (suc k) ≡ slot l s k
slot_later l s k h a = ground arith

slot_other : (l s k : ℕ) → s < l → suc k < l → s ≢ slot l s k
slot_other l s k h a = ground arith

slot_last : (l s : ℕ) → s < l → slot l s (l - 1) ≡ s
slot_last l s h = ground arith

full_length : (b : Bool) (l n : ℕ) → b ≡ leb l n → (b ≡ true → l ≤ n) × (b ≡ false → n < l)
full_length b l n h = ground arith

module _ {past : List ℤ} {w : Window} (v : ℤ) (h : Holds past w) where
  abbrev l : ℕ
  l = w.length

  abbrev s : ℕ
  s = w.buffer.size

  abbrev blocks : List ℤ
  blocks = w.buffer.blocks

  abbrev next_size : ℕ
  next_size = after w.buffer.capacity s

  held_next :
      (k : ℕ)
      → k < l
      → k < suc (length past)
      → get_or (set blocks s v) (slot l next_size k) (pos 0) ≡ get_or (v ∷ past) k (pos 0)
  held_next zero a b =
      rw (h.cap, slot_first l s h.next)
        (get_or-set_self blocks s v (pos 0) (omega (arith, h.next, h.room)))
  held_next (suc k) a b =
      rw (h.cap, slot_later l s k h.next a)
        (get_or-set_ne blocks s (slot l s k) v (pos 0) (slot_other l s k h.next a)
          ∙ h.held k (omega arith) (omega arith))

  -- The weight that leaves a full window is the oldest of the latest `l`.
  oldest : l ≤ length past → get_or blocks s (pos 0) ≡ get_or past (l - 1) (pos 0)
  oldest a =
      ap (λ i. get_or blocks i (pos 0)) (sym (slot_last l s h.next))
      ∙ h.held (l - 1) (omega (arith, h.next)) (omega (arith, h.next))

  sum_full : l ≤ length past → w.sum ≡ total (take (l - 1) past) +ℤ get_or past (l - 1) (pos 0)
  sum_full a =
      h.sums
      ∙ ap (λ n. total (take n past)) {y = suc (l - 1)} (omega (arith, h.next))
      ∙ take_next (l - 1) past (omega (arith, h.next))

  sum_next :
      (if w.is_full then w.sum +ℤ v -ℤ get_or blocks s (pos 0) else w.sum +ℤ v)
      ≡ total (take l (v ∷ past))
  sum_next = elim (Bool-cases w.is_full) [
    | inl full ↦
        let a : l ≤ length past = (full_length w.is_full l (length past) h.filled).0 full in
        rw (full, oldest a, sum_full a, take_cons l v past h.some_room) (omega int_laws)
    | inr part ↦
        let a : length past < l = (full_length w.is_full l (length past) h.filled).1 part in
        rw
          (
            part,
            h.sums,
            take_cons l v past h.some_room,
            take_all l past (omega arith),
            take_all (l - 1) past (omega arith),
          )
          (omega int_laws)
  ]

  -- Adding a weight puts it in front of the history.
  pub add-Holds : Holds (v ∷ past) (added w v)
  unfolding added
  add-Holds = record {
    some_room = h.some_room;
    cap = h.cap;
    room = rw length-set h.room;
    next = ground arith;
    filled = ground (arith, h.filled, h.filling);
    filling = ground (arith, h.filled, h.filling);
    held = held_next;
    sums = sum_next;
  }
