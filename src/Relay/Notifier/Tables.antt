-- ===== src/Relay/Notifier/Tables.antt =====
-- The consumers of a topic before and behind an assignment.
use c_playground.Common.{
  ℕ, ◌≡◌, refl, ap, ap₂, sym, ◌∙◌, true, false, List, [], ◌∷◌, ◌==◌, ==→eq, eq→==, if◌then◌else◌,
  Bool-cases, inl, inr, arith,
}
use c_playground.Relay.Notifier.{same_text, Table, consumers, put_topic, is_empty}

pub same_text_self : (s : List ℕ) → same_text s s ≡ true
unfolding same_text
same_text_self [] = refl
same_text_self (a ∷ s) = rw (eq→== a a refl) (same_text_self s)

pub same_text→eq : (s t : List ℕ) → same_text s t ≡ true → s ≡ t
unfolding same_text
same_text→eq [] [] h = refl
same_text→eq [] (b ∷ t) h = absurd (ground (arith, h))
same_text→eq (a ∷ s) [] h = absurd (ground (arith, h))
same_text→eq (a ∷ s) (b ∷ t) h = elim (Bool-cases (a == b)) [
  | inl e ↦
      let k : same_text s t ≡ true = rw e at h in
      ap₂ (λ x y. x ∷ y) (==→eq a b e) (same_text→eq s t k)
  | inr e ↦ let k : false ≡ true = rw e at h in absurd (ground (arith, k))
]

pub consumers-put_topic : (t v : List ℕ) (table : Table) → consumers t (put_topic t v table) ≡ v
unfolding consumers put_topic
consumers-put_topic t v [] = rw (same_text_self t) refl
consumers-put_topic t v (row ∷ rows) = elim (Bool-cases (same_text t row.0)) [
  | inl e ↦ rw e (rw e refl)
  | inr e ↦ rw e (rw e (consumers-put_topic t v rows))
]

pub consumers-assign_other :
    (s t v : List ℕ) (table : Table)
    → same_text s t ≡ false
    → consumers s (put_topic t v table) ≡ consumers s table
unfolding consumers put_topic
consumers-assign_other s t v [] h = rw h refl
consumers-assign_other s t v (row ∷ rows) h = elim (Bool-cases (same_text t row.0)) [
  | inl e ↦
      let k : same_text s row.0 ≡ false = ap (same_text s) (sym (same_text→eq t row.0 e)) ∙ h in
      rw e (rw k refl)
  | inr e ↦
      rw e (ap (λ r. if same_text s row.0 then row.1 else r) (consumers-assign_other s t v rows h))
]

pub consumers_assigned :
    (s t v : List ℕ) (table : Table)
    → consumers s (put_topic t v table) ≡ (if same_text s t then v else consumers s table)
consumers_assigned s t v table = elim (Bool-cases (same_text s t)) [
  | inl e ↦ rw e (
      ap (λ x. consumers x (put_topic t v table)) (same_text→eq s t e)
      ∙ consumers-put_topic t v table)
  | inr e ↦ rw e (consumers-assign_other s t v table e)
]

-- Assigning what is there changes nothing.
pub put_topic_same :
    (s t v : List ℕ) (table : Table)
    → consumers t table ≡ v
    → consumers s (put_topic t v table) ≡ consumers s table
put_topic_same s t v table h = elim (Bool-cases (same_text s t)) [
  | inl e ↦
      consumers_assigned s t v table
      ∙ rw e (sym h ∙ ap (λ x. consumers x table) (sym (same_text→eq s t e)))
  | inr e ↦ consumers-assign_other s t v table e
]

pub is_empty→nil : (s : List ℕ) → is_empty s ≡ true → s ≡ []
unfolding is_empty
is_empty→nil [] h = refl
is_empty→nil (c ∷ s) h = absurd (ground (arith, h))
