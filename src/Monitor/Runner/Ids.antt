-- ===== src/Monitor/Runner/Ids.antt =====
-- `IdManager`: `alloc` gives the lowest id that is free, and no id twice.
use c_playground.Common.{
  ℕ, zero, suc, ◌<◌, ◌≡◌, ◌≢◌, refl, sym, arith, List, [], ◌∷◌, none, some, Option-cases, inl, inr,
  Bool, true, false, length, length-set, get_or, get_or-set_self, get_or-set_ne, set, lt→ltb,
}
use c_playground.Monitor.Runner.{one_more, first_free, take_id, alloc, dealloc, is_valid}

-- The lowest id that is free.
abbrev pub IsLowest : List Bool → ℕ → Type 0
IsLowest s i =
    (i < length s) × (get_or s i false ≡ false) × ((j : ℕ) → j < i → get_or s j false ≡ true)

behind_true : (s : List Bool) (i : ℕ) → IsLowest s i → IsLowest (true ∷ s) (suc i)
behind_true s i h = (omega (arith, h.0), h.1, below)
  where
    below : (j : ℕ) → j < suc i → get_or (true ∷ s) j false ≡ true
    below zero l = refl
    below (suc j) l = h.2 j (omega arith)

first_free-IsLowest : (s : List Bool) (i : ℕ) → first_free s ≡ some i → IsLowest s i
unfolding first_free one_more
first_free-IsLowest [] i e = cc e
first_free-IsLowest (false ∷ s) i e =
    let same : i ≡ 0 = cc e in rw same (omega arith, refl, λ j l. absurd (omega arith))
first_free-IsLowest (true ∷ s) i e = elim (Option-cases (first_free s)) [
  | inl n ↦ cc (n, e)
  | inr (k, f) ↦
      let same : i ≡ suc k = cc (e, f) in rw same (behind_true s k (first_free-IsLowest s k f))
]

first_free-full :
    (s : List Bool) (j : ℕ) → first_free s ≡ none → j < length s → get_or s j false ≡ true
unfolding first_free one_more
first_free-full [] j e h = absurd (omega arith)
first_free-full (false ∷ s) j e h = cc e
first_free-full (true ∷ s) zero e h = refl
first_free-full (true ∷ s) (suc j) e h = elim (Option-cases (first_free s)) [
  | inl n ↦ first_free-full s j n (omega arith)
  | inr (k, f) ↦ cc (e, f)
]

-- `alloc` gives the lowest id that is free; it is valid from then on, and the other ids are as before.
pub alloc-IsLowest :
    (s : List Bool) (i : ℕ) (s' : List Bool)
    → alloc s ≡ some (i, s')
    → IsLowest s i × (is_valid i s' ≡ true) × ((j : ℕ) → j ≢ i → is_valid j s' ≡ is_valid j s)
alloc-IsLowest s i s' e = elim (Option-cases (first_free s)) [
  | inl n ↦ cc (e, none_left n)
  | inr (k, f) ↦
      let found = given k f in
      let low = first_free-IsLowest s k f in
      let same : i ≡ k = cc (e, found) in
      let after : s' ≡ set s k true = cc (e, found) in
      rw (same, after) (low, valid_self k low.0, λ j h. valid_other k j h)
]
  where
    none_left : first_free s ≡ none → alloc s ≡ none
    none_left n = unfold alloc take_id in rw n refl

    given : (k : ℕ) → first_free s ≡ some k → alloc s ≡ some (k, set s k true)
    given k f = unfold alloc take_id in rw f refl

    valid_self : (k : ℕ) → k < length s → is_valid k (set s k true) ≡ true
    valid_self k h =
        unfold is_valid in
        rw (length-set s k true, lt→ltb k (length s) h) (get_or-set_self s k true false h)

    valid_other : (k j : ℕ) → j ≢ k → is_valid j (set s k true) ≡ is_valid j s
    valid_other k j h =
        unfold is_valid in
        rw (length-set s k true, get_or-set_ne s k j true false (λ q. h (sym q))) refl

-- `alloc` fails only when every id is taken, and then `dealloc` of one makes it the only free one.
pub alloc-full :
    (s : List Bool) (i : ℕ)
    → alloc s ≡ none
    → i < length s
    → (is_valid i s ≡ true)
      × (is_valid i (dealloc i s) ≡ false)
      × ((j : ℕ) → j ≢ i → is_valid j (dealloc i s) ≡ is_valid j s)
alloc-full s i e h = (
  unfold is_valid in rw (lt→ltb i (length s) h) (first_free-full s i none_free h),
  unfold is_valid dealloc in
      rw (lt→ltb i (length s) h, length-set s i false, lt→ltb i (length s) h)
        (get_or-set_self s i false false h),
  others,
)
  where
    taken : (k : ℕ) → first_free s ≡ some k → alloc s ≡ some (k, set s k true)
    taken k f = unfold alloc take_id in rw f refl

    none_free : first_free s ≡ none
    none_free = elim (Option-cases (first_free s)) [ inl n ↦ n | inr (k, f) ↦ cc (e, taken k f) ]

    others : (j : ℕ) → j ≢ i → is_valid j (dealloc i s) ≡ is_valid j s
    others j n =
        unfold is_valid dealloc in
        rw
          (
            lt→ltb i (length s) h,
            length-set s i false,
            get_or-set_ne s i j false false (λ q. n (sym q)),
          )
          refl
