-- ===== src/DdlConv.antt =====
-- The lines of a table's definition as fields of a Go structure: string/ddl_conv.c.
mod Types
mod Lines
mod Tests
use c_playground.Common.{
  ℕ, zero, suc, ◌+◌, ◌-◌, Bool, true, false, ◌&&◌, ◌||◌, Option, none, some, List, [], ◌∷◌, ◌++◌,
  ◌==◌, leb, if◌then◌else◌, codes, c_string,
}

-- isspace, toupper and tolower of the C locale.
abbrev pub is_space : ℕ → Bool
is_space c = (c == 32) || (leb 9 c && leb c 13)

abbrev pub to_upper : ℕ → ℕ
to_upper c = if leb b'a' c && leb c b'z' then c - 32 else c

abbrev pub to_lower : ℕ → ℕ
to_lower c = if leb b'A' c && leb c b'Z' then c + 32 else c

abbrev pub before : ℕ → Option (List ℕ × List ℕ) → Option (List ℕ × List ℕ)
before c none = none
before c (some (p, s)) = some (c ∷ p, s)

-- `next_item`, on the memory from `s` on: what lies before the result, with the space that was
-- overwritten, and what lies behind; or nothing, when the loop leaves the memory. `jumped` is jump > 0.
unfoldable pub next_loop : (jumped : Bool) → List ℕ → Option (List ℕ × List ℕ)
next_loop jumped [] = none
next_loop false (c ∷ s) =
    let rest = next_loop (is_space c) s in before (if is_space c then 0 else c) rest
next_loop true (c ∷ s) =
    let rest = next_loop true s in if is_space c then before c rest else some ([], c ∷ s)

unfoldable pub next_item : List ℕ → Option (List ℕ × List ℕ)
next_item s = next_loop false s

-- The word before the first space, and what is behind; nothing, when there is no space in the memory.
unfoldable pub key_word : List ℕ → Option (List ℕ × List ℕ)
key_word [] = none
key_word (c ∷ s) = let rest = key_word s in if is_space c then some ([], c ∷ s) else before c rest

abbrev pub capital : List ℕ → List ℕ
capital [] = []
capital (c ∷ s) = to_upper c ∷ s

-- A word at its last underscore: `found` is what the rest of the word gives.
unfoldable pub underscore_here :
    ℕ → List ℕ → (found : Option (List ℕ × List ℕ)) → Option (List ℕ × List ℕ)
underscore_here c s none = if c == b'_' then some ([], s) else none
underscore_here c s (some (a, b)) = some (c ∷ a, b)

unfoldable pub last_underscore : List ℕ → Option (List ℕ × List ℕ)
last_underscore [] = none
last_underscore (c ∷ s) = underscore_here c s (last_underscore s)

-- The word as `handle_key` leaves it: the first letter raised; at the last underscore, unless a NUL is behind
-- it, the letter behind it raised and moved over it, and a space at the end. Nothing, when two bytes or more
-- are to be moved by one place: the ranges of `memcpy` overlap then, which C leaves undefined.
unfoldable pub key_change : List ℕ → Option (List ℕ × List ℕ) → Option (List ℕ)
key_change w none = some (capital w)
key_change w (some (a, [])) = some (capital a ++ (32 ∷ []))
key_change w (some (a, zero ∷ b)) = some (capital w)
key_change w (some (a, suc c ∷ [])) = some (capital a ++ (to_upper (suc c) ∷ (32 ∷ [])))
key_change w (some (a, suc c ∷ (d ∷ b))) = none

unfoldable pub with_rest : List ℕ → Option (List ℕ) → Option (List ℕ)
with_rest s none = none
with_rest s (some key) = some (key ++ s)

unfoldable pub key_memory : Option (List ℕ × List ℕ) → Option (List ℕ)
key_memory none = none
key_memory (some (w, s)) = with_rest s (key_change w (last_underscore w))

-- `handle_key`: the memory after it.
unfoldable pub handle_key : List ℕ → Option (List ℕ)
handle_key s = key_memory (key_word s)

-- The type of an `int` from what follows it.
unfoldable pub int_type : Option (List ℕ × List ℕ) → Option (List ℕ)
int_type none = none
int_type (some (p, [])) = none
int_type (some (p, c ∷ s)) = some (if c == b'u' then codes "uint32" else codes "int32")

unfoldable pub type_of : ℕ → List ℕ → Option (List ℕ)
type_of c s =
    if c == b'b'
    then some (codes "int64")
    else if c == b'i'
    then int_type (next_item s)
    else if (c == b'd') || (c == b't')
    then some (codes "time.Time")
    else if (c == b'c') || (c == b'v')
    then some (codes "string")
    else some (codes "interface{}")

unfoldable pub handle_type : List ℕ → Option (List ℕ)
handle_type [] = none
handle_type (c ∷ s) = type_of (to_lower c) (c ∷ s)

-- What is logged: the key, up to its NUL, and the type.
unfoldable pub with_type : List ℕ → Option (List ℕ) → Option (List ℕ × List ℕ)
with_type p none = none
with_type p (some t) = some (c_string p, t)

unfoldable pub line_items : Option (List ℕ × List ℕ) → Option (List ℕ × List ℕ)
line_items none = none
line_items (some (p, s)) = with_type p (handle_type s)

unfoldable pub line_behind : Option (List ℕ) → Option (List ℕ × List ℕ)
line_behind none = none
line_behind (some s) = line_items (next_item s)

-- `handle_line`, on the memory from the first character that is no space; nothing, when it leaves the memory or
-- copies within overlapping ranges.
unfoldable pub handle_line : List ℕ → Option (List ℕ × List ℕ)
handle_line s = line_behind (handle_key s)
