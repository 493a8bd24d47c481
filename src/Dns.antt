-- ===== src/Dns.antt =====
-- socket/dns-demo.c: names between dotted form and the form of length bytes, and the walk over a name
-- of a packet. A pointer into a name is known by the bytes from it on.
pub mod Encode
pub mod Decode
pub mod Collect
pub mod Older
pub mod Records
pub mod Answers
mod Tests
use c_playground.Common.{
  ℕ, zero, suc, ◌+◌, ◌-◌, ◌*◌, ◌%◌, List, [], ◌∷◌, ◌++◌, Option, none, some, Bool, true, false,
  length, get_elem?, take, drop, c_string, leb, ltb, ◌==◌, ◌&&◌, if◌then◌else◌,
}

-- `strchr(q, DOT)`: the bytes before the dot and those behind it.
unfoldable pub strchr : List ℕ → Option (List ℕ × List ℕ)
strchr [] = none
strchr (c ∷ s) =
    let rest = strchr s in
    if c == b'.' then some ([], s) else elim rest [ none ↦ none | some (a, b) ↦ some (c ∷ a, b) ]

-- The body of the loop of `name_encode` on the characters behind `p` and the dot found in them; `go` is
-- the loop from the new `p` on. (A `u8` takes a length modulo 256.)
unfoldable pub encode_step : List ℕ → Option (List ℕ × List ℕ) → (List ℕ → List ℕ) → List ℕ
encode_step s none go = length s % 256 ∷ s
encode_step s (some (a, b)) go = length a % 256 ∷ a ++ go b

-- The loop of `name_encode`: `s` are the characters behind `p`, the result the bytes from `p` on.
unfoldable pub encode_loop : ℕ → List ℕ → List ℕ
unfolding encode_step
encode_loop zero s = []
encode_loop (suc fuel) s = encode_step s (strchr s) (encode_loop fuel)

-- `name_encode`, with the NUL that it copies.
unfoldable pub name_encode : List ℕ → List ℕ
unfolding encode_loop strchr
name_encode src = encode_loop (length src + 1) src ++ 0 ∷ []

-- The loop of `ChangetoDnsNameFormat`: `label` are the characters from `lock` on before `i`.
unfoldable pub change_loop : List ℕ → List ℕ → List ℕ
change_loop label [] = []
change_loop label (c ∷ host) =
    if c == b'.'
    then length label % 256 ∷ label ++ change_loop [] host
    else change_loop (label ++ c ∷ []) host

unfoldable pub changeto_dns_name_format : List ℕ → List ℕ
unfolding change_loop
changeto_dns_name_format host = change_loop [] (host ++ b'.' ∷ []) ++ 0 ∷ []

-- What `name_decode` does: the buffer after it, an access outside of it, or the fuel spent.
pub data Decoding : Type 0 where
  decoded : List ℕ → Decoding
  stray : Decoding
  unended : Decoding

unfoldable pub prepend : List ℕ → Decoding → Decoding
prepend s (decoded t) = decoded (s ++ t)
prepend s stray = stray
prepend s unended = unended

unfoldable pub next_label : List ℕ → ℕ → Option ℕ → Decoding → Decoding
next_label t n none rest = stray
next_label t n (some zero) rest = decoded t
next_label t n (some (suc c)) rest = rest

-- The body of the loop of `name_decode` on the bytes from `p + n` on; `go` is the loop with the new `n`.
unfoldable pub decode_step : List ℕ → (ℕ → List ℕ → Decoding) → Decoding
unfolding next_label
decode_step [] go = stray
decode_step (m ∷ t) go =
    let n : ℕ = (m + 1) % 256 in next_label (b'.' ∷ t) n (get_elem? (b'.' ∷ t) n) (go n (b'.' ∷ t))

-- The loop of `name_decode`: `s` are the bytes from `p` on, the result what they become.
unfoldable pub decode_loop : ℕ → ℕ → List ℕ → Decoding
unfolding prepend decode_step
decode_loop zero n s = unended
decode_loop (suc fuel) n s = prepend (take n s) (decode_step (drop n s) (decode_loop fuel))

-- `memmove(dst, dst + 1, n)`
unfoldable pub move_back : ℕ → Decoding → Decoding
move_back n (decoded t) = decoded (take n (drop 1 t) ++ drop n t)
move_back n stray = stray
move_back n unended = unended

-- `name_decode` on the buffer, of which the name is the C string at its start; `src` is `dst`, or `dst`
-- starts as a copy of it.
unfoldable pub name_decode : ℕ → List ℕ → Decoding
unfolding decode_loop move_back
name_decode fuel [] = stray
name_decode fuel (c ∷ s) =
    move_back (length (c_string (c ∷ s))) (decode_loop fuel ((c + 1) % 256) (c ∷ s))

-- What the walk over a name of a packet gives: the bytes collected and the count, a read outside of the
-- packet, or the fuel spent.
pub data Walk : Type 0 where
  walked : List ℕ → ℕ → Walk
  astray : Walk
  endless : Walk

-- `reader[0]*256 + reader[1] - 0xc000`
abbrev pub pointed : ℕ → ℕ → ℕ
pointed hi lo = hi * 256 + lo - 0xc000

-- One round of the loop of `read_name` at the byte `b`, with the byte behind it; `go` is the loop at a
-- new reader, with the name, whether it has jumped, and `n`.
unfoldable pub read_step :
    ℕ → Option ℕ → Option ℕ → List ℕ → Bool → ℕ → (ℕ → List ℕ → Bool → ℕ → Walk) → Walk
read_step reader none next name jump n go = astray
read_step reader (some zero) next name jump n go = walked name (if jump then n + 1 else n)
read_step reader (some (suc c)) next name jump n go =
    if ltb (suc c) 0xc0
    then go (reader + 1) (name ++ suc c ∷ []) jump (if jump then n else n + 1)
    else elim next [ none ↦ astray | some lo ↦ go (pointed (suc c) lo) name true n ]

-- The loop of `read_name` in `packet`, with `reader` as an index; `n += jump` is done at the end.
unfoldable pub read_loop : ℕ → List ℕ → ℕ → List ℕ → Bool → ℕ → Walk
unfolding read_step
read_loop zero packet reader name jump n = endless
read_loop (suc fuel) packet reader name jump n =
    read_step reader (get_elem? packet reader) (get_elem? packet (reader + 1)) name jump n
      (read_loop fuel packet)

-- `name[256]` of `read_name`: the name with its NUL must fit.
pub data Name : Type 0 where
  name_of : Decoding → ℕ → Name
  overrun : Name
  outside : Name
  unfinished : Name

unfoldable pub finish_name : ℕ → List ℕ → Walk → Name
finish_name fuel old astray = outside
finish_name fuel old endless = unfinished
finish_name fuel old (walked name n) =
    if ltb (length name) 256
    then name_of (name_decode fuel (name ++ 0 ∷ drop (length name + 1) old)) n
    else overrun

-- `read_name(packet + reader, packet, &count, name)`; `old` is what `name` held. (A name that does not
-- fit is told at the end, not at the store that overruns.)
unfoldable pub read_name : ℕ → List ℕ → ℕ → List ℕ → Name
unfolding read_loop finish_name
read_name fuel packet reader old = finish_name fuel old (read_loop fuel packet reader [] false 1)
