-- ===== src/CmdBuffer/Owners.antt =====
-- No command is lost: what was offered is held, polled or destroyed.
use c_playground.Common.{
  ℕ, zero, suc, ◌+◌, ◌<◌, ◌≡◌, ◌≢◌, refl, Bool, true, false, List, [], ◌∷◌, ◌++◌, ◌==◌, ne→==,
  ==→eq, if◌then◌else◌, if_intro, Bool-cases, inl, inr, get_or, set, length, length-set, arith,
}
use c_playground.CmdBuffer.{
  Buffer, buffer_new, move_forward, destroyed_by, buffer_offer, buffer_poll, IsBuffer,
}

-- The offers of a buffer's owner, each with the function that destroys, and its polls, with the
-- commands offered, those polled, and those destroyed.
pub data Uses : List ℕ → List ℕ → List ℕ → Buffer → Type 0 where
  makes : Uses [] [] [] buffer_new
  offers :
      (x : ℕ) {o p d : List ℕ} {b : Buffer}
      → Uses o p d b
      → Uses (x ∷ o) p (destroyed_by true (get_or b.cmds b.nw 0) ++ d) (buffer_offer b x)
  polls :
      {o p d : List ℕ} {b : Buffer}
      → Uses o p d b
      → Uses o ((buffer_poll b).0 ∷ p) d (buffer_poll b).1

abbrev pub count_cmd : ℕ → List ℕ → ℕ
count_cmd c [] = 0
count_cmd c (x ∷ xs) = let rest = count_cmd c xs in if c == x then suc rest else rest

abbrev one : ℕ → ℕ → ℕ
one c x = if c == x then 1 else 0

count_cons : (c x : ℕ) (xs : List ℕ) → count_cmd c (x ∷ xs) ≡ one c x + count_cmd c xs
count_cons c x xs = added (c == x)
  where
    added :
        (b : Bool)
        → (if b then suc (count_cmd c xs) else count_cmd c xs)
          ≡ (if b then 1 else 0) + count_cmd c xs
    added true = omega arith
    added false = omega arith

count-set :
    (c : ℕ) (xs : List ℕ) (i x : ℕ)
    → i < length xs
    → count_cmd c (set xs i x) + one c (get_or xs i 0) ≡ count_cmd c xs + one c x
count-set c [] i x h = absurd (omega arith)
count-set c (y ∷ xs) zero x h = omega (arith, count_cons c x xs, count_cons c y xs)
count-set c (y ∷ xs) (suc i) x h =
    omega (arith, count_cons c y (set xs i x), count_cons c y xs, count-set c xs i x (omega arith))

count-destroyed :
    (c p : ℕ) (d : List ℕ)
    → c ≢ 0
    → count_cmd c (destroyed_by true p ++ d) ≡ one c p + count_cmd c d
unfolding destroyed_by
count-destroyed c p d h = elim (Bool-cases (p == 0)) [
  | inl e ↦
      rw e (let z : (c == p) ≡ false = ne→== c p (omega (arith, ==→eq p 0 e)) in rw z (omega arith))
  | inr e ↦ rw e (count_cons c p d)
]

move_forward_bound : (x : ℕ) → x < 2 → move_forward x < 2
unfolding move_forward
move_forward_bound x h = ground arith

buffer_offer-IsBuffer : (b : Buffer) (x : ℕ) → IsBuffer b → IsBuffer (buffer_offer b x)
unfolding buffer_offer
buffer_offer-IsBuffer b x (l, r, w) = (
  omega (arith, length-set b.cmds b.nw x),
  if_intro (λ (i : ℕ). i < 2) (b.nr == move_forward b.nw) (λ _. move_forward_bound b.nr r) (λ _. r),
  move_forward_bound b.nw w,
)

buffer_poll-IsBuffer : (b : Buffer) → IsBuffer b → IsBuffer (buffer_poll b).1
unfolding buffer_poll
buffer_poll-IsBuffer b (l, r, w) =
    if_intro (λ (o : ℕ × Buffer). IsBuffer o.1) (get_or b.cmds b.nr 0 == 0) (λ _. (l, r, w))
      (λ _. (omega (arith, length-set b.cmds b.nr 0), move_forward_bound b.nr r, w))

count-poll :
    (c : ℕ) (b : Buffer) (p : List ℕ)
    → c ≢ 0
    → IsBuffer b
    → count_cmd c ((buffer_poll b).0 ∷ p) + count_cmd c (buffer_poll b).1.cmds
      ≡ count_cmd c p + count_cmd c b.cmds
unfolding buffer_poll
count-poll c b p h (l, r, w) =
    if_intro
      (λ (o : ℕ × Buffer).
        count_cmd c (o.0 ∷ p) + count_cmd c o.1.cmds ≡ count_cmd c p + count_cmd c b.cmds)
      (get_or b.cmds b.nr 0 == 0) (λ _. rw (ne→== c 0 h) refl)
      (λ _. omega (
        arith,
        count_cons c (get_or b.cmds b.nr 0) p,
        count-set c b.cmds b.nr 0 (omega arith),
        none_zero,
      ))
  where
    none_zero : one c 0 ≡ 0
    none_zero = rw (ne→== c 0 h) refl

Uses-IsBuffer : (o p d : List ℕ) (b : Buffer) → Uses o p d b → IsBuffer b
unfolding buffer_new
Uses-IsBuffer o p d b makes = (refl, omega arith, omega arith)
Uses-IsBuffer o p d b (offers x {o = o1} {p = p1} {d = d1} {b = b1} u) =
    buffer_offer-IsBuffer b1 x (Uses-IsBuffer o1 p1 d1 b1 u)
Uses-IsBuffer o p d b (polls {o = o1} {p = p1} {d = d1} {b = b1} u) =
    buffer_poll-IsBuffer b1 (Uses-IsBuffer o1 p1 d1 b1 u)

-- Whatever is offered with a function that destroys, and polled, in any order: each command was polled
-- or destroyed, or is held, exactly as often as it was offered.
pub Uses-count_cmd :
    (c : ℕ) (o p d : List ℕ) (b : Buffer)
    → c ≢ 0
    → Uses o p d b
    → count_cmd c p + count_cmd c d + count_cmd c b.cmds ≡ count_cmd c o
unfolding buffer_new buffer_offer
Uses-count_cmd c o p d b h makes = rw (ne→== c 0 h) refl
Uses-count_cmd c o p d b h (offers x {o = o1} {p = p1} {d = d1} {b = b1} u) =
    let (l, r, w) = (Uses-IsBuffer o1 p1 d1 b1 u) in
    omega (
      arith,
      Uses-count_cmd c o1 p1 d1 b1 h u,
      count_cons c x o1,
      count-destroyed c (get_or b1.cmds b1.nw 0) d1 h,
      count-set c b1.cmds b1.nw x (omega (arith, l, w)),
    )
Uses-count_cmd c o p d b h (polls {o = o1} {p = p1} {d = d1} {b = b1} u) =
    omega
      (arith, Uses-count_cmd c o1 p1 d1 b1 h u, count-poll c b1 p1 h (Uses-IsBuffer o1 p1 d1 b1 u))
