-- ===== src/CmdBuffer/Order.antt =====
-- In which order commands come back.
use c_playground.Common.{
  ℕ, zero, suc, ◌<◌, ◌≡◌, ◌≢◌, refl, ap, ◌∙◌, List, [], ◌∷◌, ◌==◌, ne→==, if◌then◌else◌, get_or,
  set, length, sym, if_intro, arith,
}
use mathlib.Core.Path.{subst}
use c_playground.CmdBuffer.{Buffer, move_forward, buffer_offer, buffer_poll, IsBuffer}

taken :
    (b : Buffer) (p : ℕ)
    → get_or b.cmds b.nr 0 ≡ p
    → p ≢ 0
    → buffer_poll b ≡ (p, record b { cmds = set b.cmds b.nr 0; nr = move_forward b.nr })
unfolding buffer_poll
taken b p e h = rw e (rw (ne→== p 0 h) refl)

abbrev filled : List ℕ → ℕ → ℕ → Buffer
filled cmds r w = record { cmds = cmds; nr = r; nw = w }

-- What two offers leave, by the place of the first.
two_offers :
    (p q x y r w : ℕ)
    → r < 2
    → w < 2
    → buffer_offer (buffer_offer (filled (p ∷ q ∷ []) r w) x) y
      ≡ (if w == 0 then filled (x ∷ y ∷ []) 1 0 else filled (y ∷ x ∷ []) 0 1)
unfolding buffer_offer move_forward
two_offers p q x y zero zero h k = refl
two_offers p q x y zero (suc zero) h k = refl
two_offers p q x y (suc zero) zero h k = refl
two_offers p q x y (suc zero) (suc zero) h k = refl
two_offers p q x y (suc (suc r)) w h k = absurd (omega arith)
two_offers p q x y zero (suc (suc w)) h k = absurd (omega arith)
two_offers p q x y (suc zero) (suc (suc w)) h k = absurd (omega arith)

abbrev PollsBack : ℕ → ℕ → Buffer → Type 0
PollsBack x y b = ((buffer_poll b).0 ≡ y) × ((buffer_poll (buffer_poll b).1).0 ≡ x)

polls_behind : (x y : ℕ) → x ≢ 0 → y ≢ 0 → PollsBack x y (filled (x ∷ y ∷ []) 1 0)
unfolding move_forward
polls_behind x y hx hy =
    let one = taken (filled (x ∷ y ∷ []) 1 0) y refl hy in
    (
      ap (λ o. o.0) one,
      ap (λ o. (buffer_poll o.1).0) one ∙ ap (λ o. o.0) (taken (filled (x ∷ 0 ∷ []) 0 0) x refl hx),
    )

polls_before : (x y : ℕ) → x ≢ 0 → y ≢ 0 → PollsBack x y (filled (y ∷ x ∷ []) 0 1)
unfolding move_forward
polls_before x y hx hy =
    let one = taken (filled (y ∷ x ∷ []) 0 1) y refl hy in
    (
      ap (λ o. o.0) one,
      ap (λ o. (buffer_poll o.1).0) one ∙ ap (λ o. o.0) (taken (filled (0 ∷ x ∷ []) 1 1) x refl hx),
    )

two_places : (cmds : List ℕ) → length cmds ≡ 2 → (p : ℕ) × ((q : ℕ) × (cmds ≡ p ∷ q ∷ []))
two_places [] h = absurd (omega arith)
two_places (p ∷ []) h = absurd (omega arith)
two_places (p ∷ (q ∷ [])) h = (p, (q, refl))
two_places (p ∷ (q ∷ (r ∷ s))) h = absurd (omega arith)

-- Whatever a buffer holds, behind offers of two commands the second offered is polled first, and the
-- first offered after it: the ring of two places gives them back in reverse.
pub buffer_poll-buffer_offer :
    (b : Buffer) (x y : ℕ)
    → IsBuffer b
    → x ≢ 0
    → y ≢ 0
    → ((buffer_poll (buffer_offer (buffer_offer b x) y)).0 ≡ y)
      × ((buffer_poll (buffer_poll (buffer_offer (buffer_offer b x) y)).1).0 ≡ x)
buffer_poll-buffer_offer b x y (l, r, w) hx hy =
    let (p, (q, e)) = two_places b.cmds l in
    subst (PollsBack x y)
      (sym (
        ap (λ cmds. buffer_offer (buffer_offer (filled cmds b.nr b.nw) x) y) e
        ∙ two_offers p q x y b.nr b.nw r w))
      (if_intro (PollsBack x y) (b.nw == 0) (λ _. polls_behind x y hx hy)
        (λ _. polls_before x y hx hy))
