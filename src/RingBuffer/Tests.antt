-- ===== src/RingBuffer/Tests.antt =====
-- Runs of trivial/ring_buffer.c, and its theorems at concrete inputs.
use c_playground.Common.{◌≡◌, refl, arith, List, [], ◌∷◌, Option, none, some, length, leb, take}
use c_playground.Common.Int.{ℤ, pos, negsuc, ◌+ℤ◌, ◌-ℤ◌}
use c_playground.RingBuffer.{
  Window, weight_window_init, weight_window_add_weight, weight_window_average,
}
use c_playground.RingBuffer.History.{total}
use c_playground.RingBuffer.Sum.{add_all, latest_first, window_sum}

abbrev junk : List ℤ
junk = pos 77 ∷ negsuc 8 ∷ pos 5 ∷ []

abbrev series : List ℤ
series = negsuc 2054 ∷ negsuc 2064 ∷ negsuc 2069 ∷ negsuc 2069 ∷ []

abbrev average_of : Option Window → Option ℤ
average_of none = none
average_of (some w) = some (weight_window_average w)

average_runs : average_of (add_all (weight_window_init junk 3) series) ≡ some (negsuc 2067)
unfolding weight_window_average weight_window_init weight_window_add_weight ◌+ℤ◌ ◌-ℤ◌
average_runs = refl

-- Two of the largest `int`s have no sum.
overflow_runs : add_all (weight_window_init junk 3) (pos 2147483647 ∷ pos 2147483647 ∷ []) ≡ none
unfolding weight_window_init weight_window_add_weight ◌+ℤ◌ ◌-ℤ◌
overflow_runs = refl

window_sum_example :
    (w : Window) × ((add_all (weight_window_init junk 3) series ≡ some w)
      × (w.sum ≡ total (take 3 (latest_first series [])))
      × (w.is_full ≡ leb 3 (length series)))
window_sum_example =
    window_sum junk 3 2070 series (omega arith) (omega arith) (omega arith) (omega arith)
