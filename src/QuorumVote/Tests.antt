-- ===== src/QuorumVote/Tests.antt =====
-- The theorems on trivial/quorum_vote.c at concrete inputs.
use c_playground.Common.{ℕ, ◌≡◌, arith, List, [], ◌∷◌}
use c_playground.QuorumVote.{quorum_vote}
use c_playground.QuorumVote.Majority.{quorum_vote-majority}

abbrev votes : List ℕ
votes = 1 ∷ 2 ∷ 3 ∷ 2 ∷ 5 ∷ 2 ∷ 2 ∷ []

quorum_vote-majority_example : quorum_vote 99 votes ≡ 2
quorum_vote-majority_example = quorum_vote-majority 99 2 votes (omega arith)
