-- ===== src/QuorumVote.antt =====
-- trivial/quorum_vote.c: the majority vote in one pass.
pub mod Majority
mod Tests
use c_playground.Common.{ℕ, suc, ◌+◌, ◌-◌, List, [], ◌∷◌, Bool, true, false, ◌==◌, if◌then◌else◌}

-- The loop from the counter `c` and the candidate `v` on. The counter is never negative: it goes down
-- only where `v` is not the element, and then `c` was not 0, so `c - 1` is exact.
unfoldable pub vote_loop : List ℕ → ℕ → ℕ → ℕ
vote_loop [] c v = v
vote_loop (x ∷ a) c v =
    let v' : ℕ = if c == 0 then x else v in vote_loop a (if v' == x then c + 1 else c - 1) v'

-- `quorum_vote(a, len)`; `garbage` is what the uninitialised `v` holds. An `int` is known by its bits.
unfoldable pub quorum_vote : ℕ → List ℕ → ℕ
unfolding vote_loop
quorum_vote garbage a = vote_loop a 0 garbage
