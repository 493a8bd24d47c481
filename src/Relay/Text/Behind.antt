-- ===== src/Relay/Text/Behind.antt =====
-- `strchr` and `strrchr` on a text with one separator more.
use c_playground.Common.{ℕ, ◌≡◌, ◌≢◌, refl, none, some, List, [], ◌∷◌, ◌++◌, eq→==, ne→==, All}
use c_playground.Relay.Text.{behind_first, behind_last}

pub behind_first-append :
    (c : ℕ) (s r : List ℕ) → All (λ b. b ≢ c) s → behind_first c (s ++ c ∷ r) ≡ some r
unfolding behind_first
behind_first-append c [] r h = rw (eq→== c c refl) refl
behind_first-append c (b ∷ s) r h = rw (ne→== b c h.0) (behind_first-append c s r h.1)

behind_last-absent : (c : ℕ) (s : List ℕ) → All (λ b. b ≢ c) s → behind_last c s ≡ none
unfolding behind_last
behind_last-absent c [] h = refl
behind_last-absent c (b ∷ s) h = rw (behind_last-absent c s h.1, ne→== b c h.0) refl

pub behind_last-append :
    (c : ℕ) (s r : List ℕ) → All (λ b. b ≢ c) r → behind_last c (s ++ c ∷ r) ≡ some r
unfolding behind_last
behind_last-append c [] r h = rw (behind_last-absent c r h, eq→== c c refl) refl
behind_last-append c (b ∷ s) r h = rw (behind_last-append c s r h) refl
