-- ===== src/DdlConv/Lines.antt =====
-- The line of a column, by its name and by what it says of the type.
use c_playground.Common.{
  ℕ, zero, suc, ◌<◌, ◌≡◌, ◌≢◌, refl, ap, sym, ◌∙◌, false, none, some, List, [], ◌∷◌, ◌++◌,
  append_assoc, ne→==, All, All-append, arith, c_string_nul, All-weaken,
}
use c_playground.DdlConv.{
  is_space, to_upper, before, next_item, key_word, capital, underscore_here, last_underscore,
  key_change, with_rest, key_memory, handle_key, with_type, line_items, line_behind, handle_line,
}
use c_playground.DdlConv.Types.{
  IsBlank, NoSpace, Spelled, next_word, Spelled-Starts, handle_type-Spelled,
}

-- A character of a name, other than the underscore.
abbrev pub IsLetter : ℕ → Type 0
IsLetter c = (0 < c) × (is_space c ≡ false) × (c ≢ b'_')

key_word-append :
    (w : List ℕ) (b : ℕ) (r : List ℕ)
    → All NoSpace w
    → IsBlank b
    → key_word (w ++ (b ∷ r)) ≡ some (w, b ∷ r)
unfolding key_word
key_word-append [] b r h k = rw k refl
key_word-append (x ∷ w) b r h k = rw h.0 (ap (before x) (key_word-append w b r h.1 k))

no_underscore : (b : List ℕ) → All IsLetter b → last_underscore b ≡ none
unfolding last_underscore underscore_here
no_underscore [] h = refl
no_underscore (c ∷ b) ((p, s, u), h) = rw (no_underscore b h) (rw (ne→== c b'_' u) refl)

last_underscore-append :
    (a b : List ℕ) → All IsLetter b → last_underscore (a ++ (b'_' ∷ b)) ≡ some (a, b)
unfolding last_underscore underscore_here
last_underscore-append [] b h = rw (no_underscore b h) refl
last_underscore-append (c ∷ a) b h = rw (last_underscore-append a b h) refl

upper-IsLetter : (c : ℕ) → IsLetter c → (0 < to_upper c) × (is_space (to_upper c) ≡ false)
upper-IsLetter c (p, s, u) = (ground (arith, p), ground (arith, s))

abbrev IsPlain : ℕ → Type 0
IsPlain c = (0 < c) × (is_space c ≡ false)

letters-IsPlain : (w : List ℕ) → All IsLetter w → All IsPlain w
letters-IsPlain w = All-weaken IsLetter IsPlain w (λ c h. (h.0, h.1))

capital-IsPlain : (w : List ℕ) → All IsLetter w → All IsPlain (capital w)
capital-IsPlain [] h = tt
capital-IsPlain (c ∷ w) h = (upper-IsLetter c h.0, letters-IsPlain w h.1)

no_space : (w : List ℕ) → All IsPlain w → All NoSpace w
no_space w = All-weaken IsPlain NoSpace w (λ c h. h.1)

no_nul : (w : List ℕ) → All IsPlain w → All (λ x. 0 < x) w
no_nul w = All-weaken IsPlain (λ x. 0 < x) w (λ c h. h.0)

-- A name of a column, and the name of the field: without an underscore, or with one letter behind the last
-- underscore.
pub data Field : List ℕ → List ℕ → Type 0 where
  one_word : (w : List ℕ) → All IsLetter w → Field w (capital w)
  initial :
      (a : List ℕ) (c : ℕ)
      → All IsLetter a
      → IsLetter c
      → Field (a ++ (b'_' ∷ (c ∷ []))) (capital a ++ (to_upper c ∷ []))

Field-IsPlain : (w x : List ℕ) → Field w x → All IsPlain w × All IsPlain x
Field-IsPlain _ _ (one_word w h) = (letters-IsPlain w h, capital-IsPlain w h)
Field-IsPlain _ _ (initial a c h k) = (
  All-append IsPlain a (b'_' ∷ (c ∷ [])) (letters-IsPlain a h)
      ((omega arith, refl), ((k.0, k.1), tt)),
  All-append IsPlain (capital a) (to_upper c ∷ []) (capital-IsPlain a h) (upper-IsLetter c k, tt),
)

initial_change :
    (w a : List ℕ) (c : ℕ)
    → 0 < c
    → key_change w (some (a, c ∷ [])) ≡ some (capital a ++ (to_upper c ∷ (32 ∷ [])))
unfolding key_change
initial_change w a zero h = absurd (omega arith)
initial_change w a (suc c) h = refl

handle_key-one_word :
    (w : List ℕ) (s : ℕ) (rest : List ℕ)
    → All IsLetter w
    → IsBlank s
    → handle_key (w ++ (s ∷ rest)) ≡ some (capital w ++ (s ∷ rest))
unfolding handle_key key_memory with_rest
handle_key-one_word w s rest h hs =
    ap key_memory (key_word-append w s rest (no_space w (letters-IsPlain w h)) hs)
    ∙ ap (λ o. with_rest (s ∷ rest) (key_change w o)) (no_underscore w h)
    ∙ (unfold key_change in refl)

handle_key-initial :
    (a : List ℕ) (c s : ℕ) (rest : List ℕ)
    → All IsLetter a
    → IsLetter c
    → IsBlank s
    → handle_key ((a ++ (b'_' ∷ (c ∷ []))) ++ (s ∷ rest))
      ≡ some ((capital a ++ (to_upper c ∷ [])) ++ (32 ∷ (s ∷ rest)))
unfolding handle_key key_memory with_rest
handle_key-initial a c s rest h k hs =
    let w = a ++ (b'_' ∷ (c ∷ [])) in
    ap key_memory (key_word-append w s rest (no_space w (Field-IsPlain w _ (initial a c h k)).0) hs)
    ∙ ap (λ o. with_rest (s ∷ rest) (key_change w o)) (last_underscore-append a (c ∷ []) (k, tt))
    ∙ ap (with_rest (s ∷ rest)) (initial_change w a c k.0)
    ∙ ap some (
        append_assoc (capital a) (to_upper c ∷ (32 ∷ [])) (s ∷ rest)
        ∙ sym (append_assoc (capital a) (to_upper c ∷ []) (32 ∷ (s ∷ rest))))

-- The line from its name on, when the name is followed by spaces and a type.
line_logged :
    (x : List ℕ) (s : ℕ) (bl text t : List ℕ)
    → All IsPlain x
    → All IsBlank (s ∷ bl)
    → Spelled text t
    → line_behind (some (x ++ (s ∷ (bl ++ text)))) ≡ some (x, t)
unfolding line_behind next_item line_items with_type
line_logged x s bl text t h hb k =
    ap line_items (next_word x s bl text (no_space x h) hb (Spelled-Starts text t k))
    ∙ ap (with_type (x ++ (0 ∷ bl))) (handle_type-Spelled text t k)
    ∙ ap (λ p. some (p, t)) (c_string_nul x bl (no_nul x h))

-- A line of a name, spaces and the definition of a column, where the name is of characters other than NUL,
-- spaces and underscores, or of such characters, an underscore and one such character: the name is logged with its first
-- letter raised, and the character behind the underscore, raised, in the place of both, together with the
-- type of Go that the definition stands for by its first letters.
pub handle_line-column :
    (w x : List ℕ) (s : ℕ) (bl text t : List ℕ)
    → Field w x
    → All IsBlank (s ∷ bl)
    → Spelled text t
    → handle_line (w ++ (s ∷ (bl ++ text))) ≡ some (x, t)
unfolding handle_line
handle_line-column _ _ s bl text t (one_word w h) hb k =
    ap line_behind (handle_key-one_word w s (bl ++ text) h hb.0)
    ∙ line_logged (capital w) s bl text t (capital-IsPlain w h) hb k
handle_line-column _ _ s bl text t (initial a c h e) hb k =
    ap line_behind (handle_key-initial a c s (bl ++ text) h e hb.0)
    ∙ line_logged (capital a ++ (to_upper c ∷ [])) 32 (s ∷ bl) text t
        (Field-IsPlain _ _ (initial a c h e)).1 (refl, hb) k

two_changed :
    (w a : List ℕ) (c d : ℕ) (b : List ℕ) → 0 < c → key_change w (some (a, c ∷ (d ∷ b))) ≡ none
unfolding key_change
two_changed w a zero d b h = absurd (omega arith)
two_changed w a (suc c) d b h = refl

-- A name with two letters or more behind its last underscore has no result.
pub handle_key_overlap :
    (a : List ℕ) (c d : ℕ) (b : List ℕ) (s : ℕ) (rest : List ℕ)
    → All IsLetter a
    → All IsLetter (c ∷ (d ∷ b))
    → IsBlank s
    → handle_key ((a ++ (b'_' ∷ (c ∷ (d ∷ b)))) ++ (s ∷ rest)) ≡ none
unfolding handle_key key_memory with_rest
handle_key_overlap a c d b s rest h k hs =
    let w = a ++ (b'_' ∷ (c ∷ (d ∷ b))) in
    let plain =
      All-append IsPlain a (b'_' ∷ (c ∷ (d ∷ b))) (letters-IsPlain a h)
        ((omega arith, refl), letters-IsPlain (c ∷ (d ∷ b)) k) in
    ap key_memory (key_word-append w s rest (no_space w plain) hs)
    ∙ ap (λ o. with_rest (s ∷ rest) (key_change w o)) (last_underscore-append a (c ∷ (d ∷ b)) k)
    ∙ ap (with_rest (s ∷ rest)) (two_changed w a c d b k.0.0)
