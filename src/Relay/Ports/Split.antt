-- ===== src/Relay/Ports/Split.antt =====
-- What `split` makes of a text.
use c_playground.Common.{
  ℕ, zero, suc, ◌≡◌, ◌≢◌, refl, ap, ap₂, sym, ◌∙◌, Bool, false, List, [], ◌∷◌, ◌++◌, append_assoc,
  append-nil, ◌==◌, ne→==, eq→==, if◌then◌else◌, All,
}
use c_playground.Relay.Ports.{push_field, split_loop, split}

-- A field has a character, and none is the separator.
abbrev pub IsField : ℕ → List ℕ → Type 0
IsField c [] = ⊥
IsField c (b ∷ s) = All (λ x. x ≢ c) (b ∷ s)

abbrev pub separators : ℕ → ℕ → List ℕ
separators c zero = []
separators c (suc n) = c ∷ separators c n

-- Fields, each with one separator or more behind it.
abbrev pub separated : ℕ → List (List ℕ × ℕ) → List ℕ
separated c [] = []
separated c (f ∷ fs) = f.0 ++ (c ∷ (separators c f.1 ++ separated c fs))

module _ {ℓ} {T : Type ℓ} (c : ℕ) (op : List ℕ → T) where
  abbrev pub applied : List (List ℕ × ℕ) → List T
  applied [] = []
  applied (f ∷ fs) = op f.0 ∷ applied fs

  abbrev pub last_field : List ℕ → List T
  last_field [] = []
  last_field (b ∷ s) = op (b ∷ s) ∷ []

  loop_step :
      (b : ℕ) (rest field : List ℕ) (res : List T)
      → (b == c) ≡ false
      → split_loop c op (b ∷ rest) field res ≡ split_loop c op rest (field ++ (b ∷ [])) res
  unfolding split_loop
  loop_step b rest field res e =
      ap
        (λ (x : Bool).
          split_loop c op rest (if x then [] else field ++ (b ∷ []))
            (if x then push_field op field res else res))
        e

  loop_field :
      (s rest field : List ℕ) (res : List T)
      → All (λ x. x ≢ c) s
      → split_loop c op (s ++ rest) field res ≡ split_loop c op rest (field ++ s) res
  loop_field [] rest field res h = ap (λ f. split_loop c op rest f res) (sym (append-nil field))
  loop_field (b ∷ s) rest field res h =
      loop_step b (s ++ rest) field res (ne→== b c h.0)
      ∙ loop_field s rest (field ++ (b ∷ [])) res h.1
      ∙ ap (λ f. split_loop c op rest f res) (append_assoc field (b ∷ []) s)

  loop_separator :
      (rest field : List ℕ) (res : List T)
      → split_loop c op (c ∷ rest) field res ≡ split_loop c op rest [] (push_field op field res)
  unfolding split_loop
  loop_separator rest field res =
      ap
        (λ (x : Bool).
          split_loop c op rest (if x then [] else field ++ (c ∷ []))
            (if x then push_field op field res else res))
        (eq→== c c refl)

  loop_separators :
      (n : ℕ) (rest : List ℕ) (res : List T)
      → split_loop c op (separators c n ++ rest) [] res ≡ split_loop c op rest [] res
  unfolding push_field
  loop_separators zero rest res = refl
  loop_separators (suc n) rest res =
      loop_separator (separators c n ++ rest) [] res ∙ loop_separators n rest res

  push_last : (s : List ℕ) (res : List T) → push_field op s res ≡ res ++ last_field s
  unfolding push_field
  push_last [] res = sym (append-nil res)
  push_last (b ∷ s) res = refl

  field_plain : (f : List ℕ) → IsField c f → All (λ x. x ≢ c) f
  field_plain [] h = absurd h
  field_plain (b ∷ s) h = h

  push_one : (f : List ℕ) (res : List T) → IsField c f → push_field op f res ≡ res ++ (op f ∷ [])
  unfolding push_field
  push_one [] res h = absurd h
  push_one (b ∷ s) res h = refl

  loop_separated :
      (fs : List (List ℕ × ℕ)) (end : List ℕ) (res : List T)
      → All (λ f. IsField c f.0) fs
      → All (λ x. x ≢ c) end
      → split_loop c op (separated c fs ++ end) [] res ≡ res ++ (applied fs ++ last_field end)
  unfolding split_loop
  loop_separated [] end res h k =
      ap (λ s. split_loop c op s [] res) (sym (append-nil end))
      ∙ loop_field end [] [] res k
      ∙ push_last end res
  loop_separated (f ∷ fs) end res h k =
      ap (λ s. split_loop c op s [] res)
        (append_assoc f.0 (c ∷ (separators c f.1 ++ separated c fs)) end)
      ∙ loop_field f.0 _ [] res (field_plain f.0 h.0)
      ∙ loop_separator ((separators c f.1 ++ separated c fs) ++ end) f.0 res
      ∙ ap₂ (λ s r. split_loop c op s [] r) (append_assoc (separators c f.1) (separated c fs) end)
          (push_one f.0 res h.0)
      ∙ loop_separators f.1 (separated c fs ++ end) (res ++ (op f.0 ∷ []))
      ∙ loop_separated fs end (res ++ (op f.0 ∷ [])) h.1 k
      ∙ append_assoc res (op f.0 ∷ []) (applied fs ++ last_field end)

  -- Leading separators, then fields with one separator or more behind each, then a last field, which
  -- may be missing: `split` gives the fields, in their order, and nothing else.
  pub split-separated :
      (n : ℕ) (fs : List (List ℕ × ℕ)) (end : List ℕ)
      → All (λ f. IsField c f.0) fs
      → All (λ x. x ≢ c) end
      → split c op (separators c n ++ (separated c fs ++ end)) ≡ applied fs ++ last_field end
  unfolding split
  split-separated n fs end h k =
      loop_separators n (separated c fs ++ end) [] ∙ loop_separated fs end [] h k
