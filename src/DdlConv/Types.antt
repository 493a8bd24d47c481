-- ===== src/DdlConv/Types.antt =====
-- string/ddl_conv.c: the items of a line, and the types of Go for those of a table.
use c_playground.Common.{
  ℕ, ◌≤◌, ◌≡◌, ◌≢◌, ◌⊎◌, inl, inr, refl, ap, ◌∙◌, true, false, some, List, [], ◌∷◌, ◌++◌, ne→==,
  All, arith, codes, ◌==◌, if◌then◌else◌,
}
use c_playground.DdlConv.{
  is_space, to_lower, before, next_loop, next_item, int_type, type_of, handle_type,
}

abbrev pub IsBlank : ℕ → Type 0
IsBlank c = is_space c ≡ true

abbrev pub NoSpace : ℕ → Type 0
NoSpace c = is_space c ≡ false

-- The text does not start with a space.
abbrev pub Starts : List ℕ → Type 0
Starts [] = ⊥
Starts (c ∷ r) = NoSpace c

-- What the definition of a column says behind its name, and the type of Go that it stands for: `bigint`, dates
-- and texts by the first letter, `int` by the first letter of the word behind it, and anything else.
pub data Spelled : List ℕ → List ℕ → Type 0 where
  big : (c : ℕ) (r : List ℕ) → to_lower c ≡ b'b' → Spelled (c ∷ r) (codes "int64")
  date :
      (c : ℕ) (r : List ℕ)
      → (to_lower c ≡ b'd') ⊎ (to_lower c ≡ b't')
      → Spelled (c ∷ r) (codes "time.Time")
  chars :
      (c : ℕ) (r : List ℕ)
      → (to_lower c ≡ b'c') ⊎ (to_lower c ≡ b'v')
      → Spelled (c ∷ r) (codes "string")
  unsigned :
      (c : ℕ) (w : List ℕ) (s : ℕ) (bl r : List ℕ)
      → to_lower c ≡ b'i'
      → All NoSpace w
      → All IsBlank (s ∷ bl)
      → Spelled ((c ∷ w) ++ (s ∷ (bl ++ (b'u' ∷ r)))) (codes "uint32")
  signed :
      (c : ℕ) (w : List ℕ) (s : ℕ) (bl : List ℕ) (d : ℕ) (r : List ℕ)
      → to_lower c ≡ b'i'
      → All NoSpace w
      → All IsBlank (s ∷ bl)
      → NoSpace d
      → d ≢ b'u'
      → Spelled ((c ∷ w) ++ (s ∷ (bl ++ (d ∷ r)))) (codes "int32")
  other :
      (c : ℕ) (r : List ℕ)
      → NoSpace c
      → All (λ k. to_lower c ≢ k) (codes "bidtcv")
      → Spelled (c ∷ r) (codes "interface{}")

-- The loop on the spaces, and from the word on.
next_blanks :
    (bl text : List ℕ)
    → All IsBlank bl
    → Starts text
    → next_loop true (bl ++ text) ≡ some (bl, text)
unfolding next_loop
next_blanks [] [] h k = absurd k
next_blanks [] (c ∷ r) h k = rw k refl
next_blanks (b ∷ bl) text h k = rw h.0 (ap (before b) (next_blanks bl text h.1 k))

pub next_word :
    (w : List ℕ) (s : ℕ) (bl text : List ℕ)
    → All NoSpace w
    → All IsBlank (s ∷ bl)
    → Starts text
    → next_loop false (w ++ (s ∷ (bl ++ text))) ≡ some (w ++ (0 ∷ bl), text)
unfolding next_loop
next_word [] s bl text h hb k = rw hb.0 (ap (before 0) (next_blanks bl text hb.1 k))
next_word (x ∷ w) s bl text h hb k = rw h.0 (ap (before x) (next_word w s bl text h.1 hb k))

letter-NoSpace : (c k : ℕ) → to_lower c ≡ k → 97 ≤ k → NoSpace c
letter-NoSpace c k e h = ground (arith, e)

pub Spelled-Starts : (s t : List ℕ) → Spelled s t → Starts s
Spelled-Starts s t (big c r e) = letter-NoSpace c _ e (omega arith)
Spelled-Starts s t (date c r (inl e)) = letter-NoSpace c _ e (omega arith)
Spelled-Starts s t (date c r (inr e)) = letter-NoSpace c _ e (omega arith)
Spelled-Starts s t (chars c r (inl e)) = letter-NoSpace c _ e (omega arith)
Spelled-Starts s t (chars c r (inr e)) = letter-NoSpace c _ e (omega arith)
Spelled-Starts s t (unsigned c w b bl r e h hb) = letter-NoSpace c _ e (omega arith)
Spelled-Starts s t (signed c w b bl d r e h hb hd u) = letter-NoSpace c _ e (omega arith)
Spelled-Starts s t (other c r h k) = h

type_of-other :
    (k : ℕ) (s : List ℕ)
    → All (λ m. k ≢ m) (codes "bidtcv")
    → type_of k s ≡ some (codes "interface{}")
type_of-other k s (nb, (ni, (nd, (nt, (nc, (nv, _)))))) =
    unfold type_of in
    rw
      (
        ne→== k b'b' nb,
        ne→== k b'i' ni,
        ne→== k b'd' nd,
        ne→== k b't' nt,
        ne→== k b'c' nc,
        ne→== k b'v' nv,
      )
      refl

int_word :
    (c : ℕ) (w : List ℕ) (s : ℕ) (bl : List ℕ) (d : ℕ) (r : List ℕ)
    → to_lower c ≡ b'i'
    → All NoSpace w
    → All IsBlank (s ∷ bl)
    → NoSpace d
    → handle_type ((c ∷ w) ++ (s ∷ (bl ++ (d ∷ r))))
      ≡ some (if d == b'u' then codes "uint32" else codes "int32")
unfolding handle_type type_of next_item int_type
int_word c w s bl d r e h hb hd =
    ap (λ k. type_of k ((c ∷ w) ++ (s ∷ (bl ++ (d ∷ r))))) e
    ∙ ap int_type (next_word (c ∷ w) s bl (d ∷ r) (letter-NoSpace c _ e (omega arith), h) hb hd)

pub handle_type-Spelled : (s t : List ℕ) → Spelled s t → handle_type s ≡ some t
unfolding handle_type
handle_type-Spelled s t (big c r e) = ap (λ k. type_of k (c ∷ r)) e ∙ (unfold type_of in refl)
handle_type-Spelled s t (date c r (inl e)) =
    ap (λ k. type_of k (c ∷ r)) e ∙ (unfold type_of in refl)
handle_type-Spelled s t (date c r (inr e)) =
    ap (λ k. type_of k (c ∷ r)) e ∙ (unfold type_of in refl)
handle_type-Spelled s t (chars c r (inl e)) =
    ap (λ k. type_of k (c ∷ r)) e ∙ (unfold type_of in refl)
handle_type-Spelled s t (chars c r (inr e)) =
    ap (λ k. type_of k (c ∷ r)) e ∙ (unfold type_of in refl)
handle_type-Spelled s t (unsigned c w b bl r e h hb) = int_word c w b bl b'u' r e h hb refl
handle_type-Spelled s t (signed c w b bl d r e h hb hd u) =
    int_word c w b bl d r e h hb hd ∙ rw (ne→== d b'u' u) refl
handle_type-Spelled s t (other c r h k) = type_of-other (to_lower c) (c ∷ r) k
