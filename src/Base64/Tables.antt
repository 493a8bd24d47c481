-- ===== src/Base64/Tables.antt =====
-- codec/base64.c: `base64_table` and `base64_rtable`, as `base64_table_init` fills them.
use c_playground.Common.{ℕ, zero, suc, ◌+◌, ◌<◌, ◌≡◌, refl, List, replicate, set, get_or}
use c_playground.Common.Bits.{same_below, same_below→eq}

pub record Tables : Type 0 where
  pub forward : List ℕ
  pub back : List ℕ

-- `ASSIGN(x, y)`
assign : ℕ → ℕ → Tables → Tables
assign x y t = record { forward = set t.forward x y; back = set t.back y x }

-- The loop over the letters from `i` on, with `n` rounds left.
assign_letters : ℕ → ℕ → Tables → Tables
unfolding assign
assign_letters zero i t = t
assign_letters (suc n) i t =
    assign_letters n (i + 1) (assign (i + 26) (b'a' + i) (assign i (b'A' + i) t))

-- The loop over the digits.
assign_digits : ℕ → ℕ → Tables → Tables
unfolding assign
assign_digits zero i t = t
assign_digits (suc n) i t = assign_digits n (i + 1) (assign (i + 52) (b'0' + i) t)

-- Static arrays start as zeros.
base64_table_init : Tables
unfolding assign assign_letters assign_digits
base64_table_init =
    let zeros : Tables = record { forward = replicate 256 0; back = replicate 256 0 } in
    let t : Tables =
      assign 63 b'/' (assign 62 b'+' (assign_digits 10 0 (assign_letters 26 0 zeros))) in
    record t { back = set t.back b'=' 0 }

-- `base64_table[x]` and `base64_rtable[y]`, at a byte.
unfoldable pub encode_char : ℕ → ℕ
unfolding base64_table_init
encode_char x = get_or base64_table_init.forward x 0

unfoldable pub decode_char : ℕ → ℕ
unfolding base64_table_init
decode_char y = get_or base64_table_init.back y 0

-- The reverse table undoes the table on the 64 digits.
pub decode_char-encode_char : (x : ℕ) → x < 64 → decode_char (encode_char x) ≡ x
unfolding decode_char encode_char same_below
decode_char-encode_char = same_below→eq _ _ 64 refl

pub decode_char-padding : decode_char b'=' ≡ 0
unfolding decode_char
decode_char-padding = refl
