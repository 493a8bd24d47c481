-- ===== src/NameCodec/Search/Lookup.antt =====
-- The binary search of `main` finds what a scan of the array from the front finds.
use c_playground.Common.{ℕ, zero, suc, ◌+◌, ◌/◌, ◌^◌, ◌≤◌, ◌<◌, ◌≡◌, refl, sym, ◌∙◌}
use c_playground.Common.{List, [], ◌∷◌, Option, none, some, arith, ◌≢◌, inl, inr}
use c_playground.Common.{
  get_elem?, length, All, ltb, ◌==◌, if◌then◌else◌, Option-cases, Bool-cases, ltb→lt, lt→ltb,
  le→ltb,
}
use mathlib.Core.Path.{subst}
use c_playground.Common.Int.{sub_ℕ}
use c_playground.NameCodec.Tables.{Pair, pairs}
use c_playground.NameCodec.Search.{pair_cmp, bsearch, find_pair}

abbrev pub Ascending : List Pair → Type 0
Ascending [] = Unit
Ascending (p ∷ ps) = All (λ q. p.x < q.x) ps × Ascending ps

-- The first pair with the code point `t`, from the front.
abbrev pub scan : ℕ → List Pair → Option Pair
scan t [] = none
scan t (p ∷ ps) = if p.x == t then some p else scan t ps

pair_cmp_lem : (a b : Pair) → a.x < 2 ^ 31 → b.x < 2 ^ 31 → pair_cmp a b ≡ sub_ℕ a.x b.x
unfolding pair_cmp
pair_cmp_lem a b ha hb = ground arith

head_eq : (p q : Pair) → some p ≡ some q → p ≡ q
head_eq p q e = cc

All-get :
    (P : Pair → Type 0) (ps : List Pair) (i : ℕ) (p : Pair)
    → All P ps
    → get_elem? ps i ≡ some p
    → P p
All-get P [] i p h e = cc
All-get P (q ∷ ps) zero p h e = subst P (head_eq q p e) h.0
All-get P (q ∷ ps) (suc i) p h e = All-get P ps i p h.1 e

Ascending-get :
    (ps : List Pair) (i j : ℕ) (p q : Pair)
    → Ascending ps
    → i < j
    → get_elem? ps i ≡ some p
    → get_elem? ps j ≡ some q
    → p.x < q.x
Ascending-get [] i j p q h lt e k = cc
Ascending-get (r ∷ ps) zero zero p q h lt e k = absurd (omega arith)
Ascending-get (r ∷ ps) zero (suc j) p q h lt e k =
    rw (← head_eq r p e) (All-get (λ s. r.x < s.x) ps j q h.0 k)
Ascending-get (r ∷ ps) (suc i) zero p q h lt e k = absurd (omega arith)
Ascending-get (r ∷ ps) (suc i) (suc j) p q h lt e k = Ascending-get ps i j p q h.1 (omega arith) e k

get-in_range : (ps : List Pair) (i : ℕ) → i < length ps → (p : Pair) × (get_elem? ps i ≡ some p)
get-in_range [] i h = absurd (omega arith)
get-in_range (p ∷ ps) zero h = (p, refl)
get-in_range (p ∷ ps) (suc i) h = get-in_range ps i (omega arith)

module _ (t : ℕ) (ps : List Pair) where
  abbrev key : Pair
  key = record { x = t; c = 0 }

  bsearch_step :
      (fuel lo hi : ℕ) (q : Pair)
      → t < 2 ^ 31
      → q.x < 2 ^ 31
      → lo < hi
      → get_elem? ps ((lo + hi) / 2) ≡ some q
      → bsearch pair_cmp key ps (suc fuel) lo hi ≡ (
          if ltb t q.x
          then bsearch pair_cmp key ps fuel lo ((lo + hi) / 2)
          else if t == q.x
          then some q
          else bsearch pair_cmp key ps fuel ((lo + hi) / 2 + 1) hi)
  bsearch_step fuel lo hi q ht hq h e =
      unfold bsearch in rw (lt→ltb lo hi h, e, pair_cmp_lem key q ht hq) (ground arith)

  bsearch_stop : (fuel lo hi : ℕ) → hi ≤ lo → bsearch pair_cmp key ps fuel lo hi ≡ none
  unfolding bsearch
  bsearch_stop zero lo hi h = refl
  bsearch_stop (suc fuel) lo hi h = rw (le→ltb lo hi h) refl

  module _ (small : All (λ p. p.x < 2 ^ 31) ps) (ht : t < 2 ^ 31) where
    bsearch_complete :
        Ascending ps
        → (fuel lo hi i : ℕ) (p : Pair) → hi ≤ lo + fuel
        → hi ≤ length ps
        → lo ≤ i
        → i < hi
        → get_elem? ps i ≡ some p
        → p.x ≡ t
        → bsearch pair_cmp key ps fuel lo hi ≡ some p
    bsearch_complete asc zero lo hi i p hf hl h1 h2 e k = absurd (omega arith)
    bsearch_complete asc (suc fuel) lo hi i p hf hl h1 h2 e k =
        let mid : ℕ = (lo + hi) / 2 in
        let (q, eq) = get-in_range ps mid (omega arith) in
        ground (
          arith,
          bsearch_step fuel lo hi q ht (All-get (λ r. r.x < 2 ^ 31) ps mid q small eq),
          Ascending-get ps mid i q p asc,
          Ascending-get ps i mid p q asc,
          bsearch_complete asc fuel lo mid i p,
          bsearch_complete asc fuel (mid + 1) hi i p,
        )

    bsearch_sound :
        (fuel lo hi : ℕ) (p : Pair)
        → hi ≤ length ps
        → bsearch pair_cmp key ps fuel lo hi ≡ some p
        → (i : ℕ) × (get_elem? ps i ≡ some p) × (p.x ≡ t)
    bsearch_sound zero lo hi p hl e = unfold bsearch in cc
    bsearch_sound (suc fuel) lo hi p hl e = elim (Bool-cases (ltb lo hi)) [
      | inl h ↦
          let mid : ℕ = (lo + hi) / 2 in
          let (q, eq) = get-in_range ps mid (ground arith) in
          let step =
            bsearch_step fuel lo hi q ht (All-get (λ r. r.x < 2 ^ 31) ps mid q small eq)
              (ltb→lt lo hi h) eq in
          elim (Bool-cases (ltb t q.x)) [
            | inl less ↦ bsearch_sound fuel lo mid p (omega (arith, ltb→lt lo hi h)) (ground arith)
            | inr more ↦ elim (Bool-cases (t == q.x)) [
              | inl same ↦ (mid, ground arith, ground arith)
              | inr other ↦ bsearch_sound fuel (mid + 1) hi p hl (ground arith)
            ]
          ]
      | inr h ↦ ground (arith, bsearch_stop (suc fuel) lo hi)
    ]

scan-get :
    (t : ℕ) (ps : List Pair) (p : Pair)
    → scan t ps ≡ some p
    → (i : ℕ) × (i < length ps) × (get_elem? ps i ≡ some p) × (p.x ≡ t)
scan-get t [] p e = cc
scan-get t (q ∷ ps) p e = elim (Bool-cases (q.x == t)) [
  | inl same ↦ (0, omega arith, ground arith, ground arith)
  | inr other ↦ let (i, h, g, x) = scan-get t ps p (rw other at e) in (suc i, omega arith, g, x)
]

scan-ne-none :
    (t : ℕ) (ps : List Pair) (i : ℕ) (p : Pair)
    → get_elem? ps i ≡ some p
    → p.x ≡ t
    → scan t ps ≢ none
scan-ne-none t [] i p e k = λ z. cc
scan-ne-none t (q ∷ ps) zero p e k = λ z. ground (arith, head_eq q p e)
scan-ne-none t (q ∷ ps) (suc i) p e k = ground (arith, scan-ne-none t ps i p e k)

-- On an array in ascending order of `int` code points, the binary search from end to end finds what
-- a scan from the front finds.
pub bsearch-scan :
    (t : ℕ) (ps : List Pair)
    → Ascending ps
    → All (λ p. p.x < 2 ^ 31) ps
    → t < 2 ^ 31
    → bsearch pair_cmp (record { x = t; c = 0 }) ps (length ps) 0 (length ps) ≡ scan t ps
bsearch-scan t ps asc small ht = elim (Option-cases (scan t ps)) [
  | inl gone ↦ elim (Option-cases (bsearch pair_cmp (key t ps) ps (length ps) 0 (length ps))) [
    | inl same ↦ rw (gone, same)
    | inr (p, found) ↦
        let (i, g, x) =
          bsearch_sound t ps small ht (length ps) 0 (length ps) p (omega arith) found in
        absurd (scan-ne-none t ps i p g x gone)
  ]
  | inr (p, found) ↦
      let (i, h, g, x) = scan-get t ps p found in
      rw found (
        bsearch_complete t ps small ht asc (length ps) 0 (length ps) i p (omega arith) (omega arith)
          (omega arith) h g x)
]

-- The array `pairs` is in ascending order, so for every key below 2 ^ 31 the search in `main` finds
-- what a scan of the array from the front finds.
pub find_pair-scan : (t : ℕ) → t < 2 ^ 31 → find_pair t ≡ scan t pairs
unfolding find_pair
find_pair-scan t ht = bsearch-scan t pairs (omega arith) (omega arith) ht

-- Every family name lies between 2 ^ 14 and 2 ^ 16.
pub find_pair_range :
    (t : ℕ) (p : Pair) → t < 2 ^ 31 → find_pair t ≡ some p → (2 ^ 14 ≤ t) × (t < 2 ^ 16)
find_pair_range t p ht e =
    let (i, h, g, x) = scan-get t pairs p (sym (find_pair-scan t ht) ∙ e) in
    let r : (2 ^ 14 ≤ p.x) × (p.x < 2 ^ 16) =
      All-get (λ q. (2 ^ 14 ≤ q.x) × (q.x < 2 ^ 16)) pairs i p range g in
    omega arith
  where
    range : All (λ q. (2 ^ 14 ≤ q.x) × (q.x < 2 ^ 16)) pairs
    range = unfold pairs in omega arith
