-- ===== src/RingBuffer/Layout.antt =====
-- trivial/ring_buffer.c: where `ring_buffer_init` places the blocks.
use c_playground.Common.{
  ℕ, suc, ◌+◌, ◌*◌, ◌/◌, ◌^◌, ◌≤◌, ◌<◌, ◌≡◌, arith, bit_and, ◌==◌, if◌then◌else◌,
}
use c_playground.Common.Bits.{bit_and_low, bit_and_step}

-- `ALIGN(x)`: the sum is the condition of the `?:`, since `+` binds tighter.
unfoldable pub align : ℕ → ℕ
align x = if bit_and x 0xffff_fff8 + bit_and x 7 == 0 then 0 else 8

-- The bytes asked of `malloc`, with 8-byte pointers.
unfoldable pub ring_bytes : ℕ → ℕ → ℕ
unfolding align
ring_bytes capacity block = capacity * (8 + align block)

-- `data[i]`, counted from the start of the blob.
unfoldable pub block_offset : ℕ → ℕ → ℕ → ℕ
unfolding align
block_offset capacity block i = capacity * 8 + i * align block

high_bits : (x : ℕ) → x < 2 ^ 32 → bit_and x 0xffff_fff8 + bit_and x 7 ≡ x
high_bits x h = omega (
  arith,
  bit_and_low 3 x,
  bit_and_step x 0xffff_fff8,
  bit_and_step (x / 2) 0x7fff_fffc,
  bit_and_step (x / 2 / 2) 0x3fff_fffe,
  bit_and_low 29 (x / 2 / 2 / 2),
)

align_lem : (x : ℕ) → 0 < x → x < 2 ^ 32 → align x ≡ 8
unfolding align
align_lem x p h = ground (arith, high_bits x h)

-- Blocks of at most 8 bytes lie in the blob behind the pointers, each ahead of the next.
pub blocks_apart :
    (capacity block i : ℕ)
    → 0 < block
    → block ≤ 8
    → i < capacity
    → (capacity * 8 ≤ block_offset capacity block i)
      × (block_offset capacity block i + block ≤ block_offset capacity block (suc i))
      × (block_offset capacity block i + block ≤ ring_bytes capacity block)
unfolding block_offset ring_bytes
blocks_apart capacity block i p h l =
    let a : align block ≡ 8 = align_lem block p (omega arith) in rw a (omega arith)

-- A larger block reaches into the next one, and the last block past the end of the blob.
pub blocks_overlap :
    (capacity block i : ℕ)
    → 8 < block
    → block < 2 ^ 32
    → i < capacity
    → (block_offset capacity block (suc i) < block_offset capacity block i + block)
      × (suc i ≡ capacity → ring_bytes capacity block < block_offset capacity block i + block)
unfolding block_offset ring_bytes
blocks_overlap capacity block i h k l =
    let a : align block ≡ 8 = align_lem block (omega arith) k in rw a (omega arith)
