-- ===== src/QuorumVote/Majority.antt =====
-- The vote returns the majority, if there is one.
use c_playground.Common.{
  ℕ, ◌+◌, ◌-◌, ◌*◌, ◌<◌, ◌≡◌, refl, arith, List, [], ◌∷◌, length, ◌==◌, if◌then◌else◌, ◌⊎◌, inl,
}
use c_playground.QuorumVote.{vote_loop, quorum_vote}

-- How often `m` stands in a list.
abbrev pub count : ℕ → List ℕ → ℕ
count m [] = 0
count m (x ∷ a) = (if x == m then 1 else 0) + count m a

-- The votes that are still held count for the candidate: the majority of all is the result.
loop_majority :
    (m : ℕ) (a : List ℕ) (c v : ℕ)
    → length a + c < 2 * count m a + (if v == m then 2 * c else 0)
    → vote_loop a c v ≡ m
unfolding vote_loop
loop_majority m [] c v h = ground arith
loop_majority m (x ∷ a) c v h =
    ground (arith, loop_majority m a 1 x, loop_majority m a (c + 1) v, loop_majority m a (c - 1) v)

-- An element that makes up more than half of the array is the result of `quorum_vote`.
pub quorum_vote-majority :
    (garbage m : ℕ) (a : List ℕ) → length a < 2 * count m a → quorum_vote garbage a ≡ m
unfolding quorum_vote
quorum_vote-majority garbage m a h = loop_majority m a 0 garbage (ground arith)

loop_member : (a : List ℕ) (c v : ℕ) → (vote_loop a c v ≡ v) ⊎ (0 < count (vote_loop a c v) a)
unfolding vote_loop
loop_member [] c v = inl refl
loop_member (x ∷ a) c v =
    ground (arith, loop_member a (c + 1) x, loop_member a (c + 1) v, loop_member a (c - 1) v)

-- The result is an element of every array that is not empty.
pub quorum_vote-member :
    (garbage x : ℕ) (a : List ℕ) → 0 < count (quorum_vote garbage (x ∷ a)) (x ∷ a)
unfolding quorum_vote
quorum_vote-member garbage x a = ground (arith, loop_member a 1 x)
