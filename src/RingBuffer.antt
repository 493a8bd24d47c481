-- ===== src/RingBuffer.antt =====
-- trivial/ring_buffer.c: a ring of preallocated blocks, and the sliding window of weights over it.
-- The blocks are known by their index in `data`; `Layout` has their addresses.
pub mod Layout
pub mod History
pub mod Sum
mod Tests
use c_playground.Common.{
  ℕ, suc, ◌+◌, ◌/◌, ◌^◌, List, Bool, true, false, Option, none, some, get_or, set, length, ◌==◌,
  ◌&&◌, ltb, leb, if◌then◌else◌,
}
use c_playground.Common.Int.{ℤ, pos, negsuc, pos_part, neg_part, ◌+ℤ◌, ◌-ℤ◌}

-- `struct ring_buffer_t`, with the `int` that stands in each block (fresh memory holds any).
pub record Ring : Type 0 where
  pub blocks : List ℤ
  pub size : ℕ
  pub capacity : ℕ

-- `ring_buffer_init(self, capacity, sizeof(int))`; `memory` is what `malloc` gives.
unfoldable pub ring_buffer_init : List ℤ → ℕ → Ring
ring_buffer_init memory capacity = record { blocks = memory; size = 0; capacity = capacity }

-- `ring_buffer_get`: the index of the block, and the ring after. (`++self->size` is a `size_t`; it
-- stays at most `capacity`, so it does not wrap.)
unfoldable pub ring_buffer_get : Ring → ℕ × Ring
ring_buffer_get r =
    let next : ℕ = r.size + 1 in
    (r.size, record r { size = if next == r.capacity then 0 else next })

-- `struct weight_window_t`
pub record Window : Type 0 where
  pub sum : ℤ
  pub is_full : Bool
  pub length : ℕ
  pub buffer : Ring

unfoldable pub weight_window_init : List ℤ → ℕ → Window
unfolding ring_buffer_init
weight_window_init memory length = record {
  sum = pos 0;
  is_full = false;
  length = length;
  buffer = ring_buffer_init memory length;
}

-- The result of an addition or subtraction of `int`s; nothing, when it leaves their range, where C defines
-- no result.
unfoldable pub checked : ℤ → Option ℤ
checked z = if ltb (pos_part z) (2 ^ 31) && leb (neg_part z) (2 ^ 31) then some z else none

-- `self->sum -= *p`, in a full window.
unfoldable pub take_off : (full : Bool) → (old : ℤ) → Option ℤ → Option ℤ
unfolding checked
take_off full old none = none
take_off full old (some sum) = if full then checked (sum -ℤ old) else some sum

-- The window with its new sum, `buffer` with its new weight.
unfoldable pub with_sum : Window → Ring → Option ℤ → Option Window
with_sum w buffer none = none
with_sum w buffer (some sum) = some (record w {
  sum = sum;
  is_full = if w.is_full then true else buffer.size == 0;
  buffer = buffer;
})

-- `weight_window_add_weight`
unfoldable pub weight_window_add_weight : Window → ℤ → Option Window
unfolding ring_buffer_get checked take_off with_sum
weight_window_add_weight w weight =
    let (p, buffer) = ring_buffer_get w.buffer in
    let old : ℤ = get_or buffer.blocks p (pos 0) in
    with_sum w (record buffer { blocks = set buffer.blocks p weight })
      (take_off w.is_full old (checked (w.sum +ℤ weight)))

-- `a / b` on `int` rounds towards zero; `b` is positive.
unfoldable pub quotient : ℤ → ℕ → ℤ
quotient (pos n) b = pos (n / b)
quotient (negsuc n) b = pos 0 -ℤ pos (suc n / b)

unfoldable pub weight_window_average : Window → ℤ
unfolding quotient
weight_window_average w = quotient w.sum w.length
