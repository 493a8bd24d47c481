-- ===== src/NameCodec/Tables.antt =====
-- trivial/name_codec.c: the static tables `table` and `pairs`, entry by entry, and that they are
-- inverse to each other.
pub mod Inverse
use c_playground.Common.{ℕ, List, [], ◌∷◌, ◌++◌, replicate}

-- `struct st_family_name_t`: a code point, and its UTF-8 bytes in an array of `sizeof(long)` bytes.
pub record FamilyName : Type 0 where
  pub x : ℕ
  pub a : List ℕ

-- `struct st_pair_t`: a code point and the character that stands for it.
pub record Pair : Type 0 where
  pub x : ℕ
  pub c : ℕ

-- `{.x=0xffffffff, .a={}}`
abbrev pub unset : FamilyName
unset = record { x = 0xffff_ffff; a = replicate 8 0 }

-- `{.x=x, .a={p, q, r,}}`: the rest of the array is zero.
abbrev pub named : ℕ → ℕ → ℕ → ℕ → FamilyName
named x p q r = record { x = x; a = p ∷ q ∷ r ∷ replicate 5 0 }

abbrev pair : ℕ → ℕ → Pair
pair x c = record { x = x; c = c }

-- Indexed by character.
unfoldable pub table : List FamilyName
table =
    unset
    ∷ unset
    ∷ unset
    ∷ unset
    ∷ unset
    ∷ unset
    ∷ unset
    ∷ unset
    ∷ unset
    ∷ unset
    ∷ unset
    ∷ unset
    ∷ unset
    ∷ unset
    ∷ unset
    ∷ unset
    ∷ unset
    ∷ unset
    ∷ unset
    ∷ unset
    ∷ unset
    ∷ unset
    ∷ unset
    ∷ unset
    ∷ unset
    ∷ unset
    ∷ unset
    ∷ unset
    ∷ unset
    ∷ unset
    ∷ unset
    ∷ unset
    ∷ unset
    ∷ unset
    ∷ unset
    ∷ named 0x987e 0xe9 0xa1 0xbe
    ∷ unset
    ∷ named 0x5c39 0xe5 0xb0 0xb9
    ∷ named 0x6c5f 0xe6 0xb1 0x9f
    ∷ unset
    ∷ unset
    ∷ unset
    ∷ named 0x949f 0xe9 0x92 0x9f
    ∷ named 0x7c73 0xe7 0xb1 0xb3
    ∷ unset
    ∷ named 0x4f0d 0xe4 0xbc 0x8d
    ∷ named 0x859b 0xe8 0x96 0x9b
    ∷ named 0x59da 0xe5 0xa7 0x9a
    ∷ named 0x8d75 0xe8 0xb5 0xb5
    ∷ named 0x94b1 0xe9 0x92 0xb1
    ∷ named 0x5b59 0xe5 0xad 0x99
    ∷ named 0x674e 0xe6 0x9d 0x8e
    ∷ named 0x5468 0xe5 0x91 0xa8
    ∷ named 0x5434 0xe5 0x90 0xb4
    ∷ named 0x90d1 0xe9 0x83 0x91
    ∷ named 0x738b 0xe7 0x8e 0x8b
    ∷ named 0x51af 0xe5 0x86 0xaf
    ∷ named 0x9648 0xe9 0x99 0x88
    ∷ unset
    ∷ unset
    ∷ unset
    ∷ named 0x8d1d 0xe8 0xb4 0x9d
    ∷ unset
    ∷ named 0x5b5f 0xe5 0xad 0x9f
    ∷ unset
    ∷ named 0x798f 0xe7 0xa6 0x8f
    ∷ named 0x6c34 0xe6 0xb0 0xb4
    ∷ named 0x7aa6 0xe7 0xaa 0xa6
    ∷ named 0x7ae0 0xe7 0xab 0xa0
    ∷ named 0x4e91 0xe4 0xba 0x91
    ∷ named 0x82cf 0xe8 0x8b 0x8f
    ∷ named 0x6f58 0xe6 0xbd 0x98
    ∷ named 0x845b 0xe8 0x91 0x9b
    ∷ named 0x595a 0xe5 0xa5 0x9a
    ∷ named 0x8303 0xe8 0x8c 0x83
    ∷ named 0x5f6d 0xe5 0xbd 0xad
    ∷ named 0x90ce 0xe9 0x83 0x8e
    ∷ named 0x9c81 0xe9 0xb2 0x81
    ∷ named 0x97e6 0xe9 0x9f 0xa6
    ∷ named 0x660c 0xe6 0x98 0x8c
    ∷ named 0x9a6c 0xe9 0xa9 0xac
    ∷ named 0x82d7 0xe8 0x8b 0x97
    ∷ named 0x51e4 0xe5 0x87 0xa4
    ∷ named 0x82b1 0xe8 0x8a 0xb1
    ∷ named 0x65b9 0xe6 0x96 0xb9
    ∷ named 0x4fde 0xe4 0xbf 0x9e
    ∷ named 0x4efb 0xe4 0xbb 0xbb
    ∷ named 0x8881 0xe8 0xa2 0x81
    ∷ named 0x67f3 0xe6 0x9f 0xb3
    ∷ named 0x5510 0xe5 0x94 0x90
    ∷ named 0x7f57 0xe7 0xbd 0x97
    ∷ unset
    ∷ unset
    ∷ unset
    ∷ unset
    ∷ named 0x4f59 0xe4 0xbd 0x99
    ∷ unset
    ∷ named 0x891a 0xe8 0xa4 0x9a
    ∷ named 0x536b 0xe5 0x8d 0xab
    ∷ named 0x848b 0xe8 0x92 0x8b
    ∷ named 0x6c88 0xe6 0xb2 0x88
    ∷ named 0x97e9 0xe9 0x9f 0xa9
    ∷ named 0x6768 0xe6 0x9d 0xa8
    ∷ named 0x6731 0xe6 0x9c 0xb1
    ∷ named 0x79e6 0xe7 0xa7 0xa6
    ∷ named 0x5c24 0xe5 0xb0 0xa4
    ∷ named 0x8bb8 0xe8 0xae 0xb8
    ∷ named 0x4f55 0xe4 0xbd 0x95
    ∷ named 0x5415 0xe5 0x90 0x95
    ∷ named 0x65bd 0xe6 0x96 0xbd
    ∷ named 0x5f20 0xe5 0xbc 0xa0
    ∷ named 0x5b54 0xe5 0xad 0x94
    ∷ named 0x66f9 0xe6 0x9b 0xb9
    ∷ named 0x4e25 0xe4 0xb8 0xa5
    ∷ named 0x534e 0xe5 0x8d 0x8e
    ∷ named 0x91d1 0xe9 0x87 0x91
    ∷ named 0x9b4f 0xe9 0xad 0x8f
    ∷ named 0x9676 0xe9 0x99 0xb6
    ∷ named 0x59dc 0xe5 0xa7 0x9c
    ∷ named 0x621a 0xe6 0x88 0x9a
    ∷ named 0x8c22 0xe8 0xb0 0xa2
    ∷ named 0x90b9 0xe9 0x82 0xb9
    ∷ named 0x55bb 0xe5 0x96 0xbb
    ∷ unset
    ∷ unset
    ∷ unset
    ∷ unset
    ∷ unset
    ∷ []

-- Ascending in the code point.
unfoldable pub pairs : List Pair
pairs =
    pair 0x4e25 b'q'
    ∷ pair 0x4e91 b'E'
    ∷ pair 0x4efb b'V'
    ∷ pair 0x4f0d b'-'
    ∷ pair 0x4f55 b'k'
    ∷ pair 0x4f59 b'_'
    ∷ pair 0x4fde b'U'
    ∷ pair 0x51af b'8'
    ∷ pair 0x51e4 b'R'
    ∷ pair 0x534e b'r'
    ∷ pair 0x536b b'b'
    ∷ pair 0x5415 b'l'
    ∷ pair 0x5434 b'5'
    ∷ pair 0x5468 b'4'
    ∷ pair 0x5510 b'Y'
    ∷ pair 0x55bb b'z'
    ∷ pair 0x595a b'I'
    ∷ pair 0x59da b'/'
    ∷ pair 0x59dc b'v'
    ∷ pair 0x5b54 b'o'
    ∷ pair 0x5b59 b'2'
    ∷ pair 0x5b5f b'?'
    ∷ pair 0x5c24 b'i'
    ∷ pair 0x5c39 b'%'
    ∷ pair 0x5f20 b'n'
    ∷ pair 0x5f6d b'K'
    ∷ pair 0x621a b'w'
    ∷ pair 0x65b9 b'T'
    ∷ pair 0x65bd b'm'
    ∷ pair 0x660c b'O'
    ∷ pair 0x66f9 b'p'
    ∷ pair 0x6731 b'g'
    ∷ pair 0x674e b'3'
    ∷ pair 0x6768 b'f'
    ∷ pair 0x67f3 b'X'
    ∷ pair 0x6c34 b'B'
    ∷ pair 0x6c5f b'&'
    ∷ pair 0x6c88 b'd'
    ∷ pair 0x6f58 b'G'
    ∷ pair 0x738b b'7'
    ∷ pair 0x798f b'A'
    ∷ pair 0x79e6 b'h'
    ∷ pair 0x7aa6 b'C'
    ∷ pair 0x7ae0 b'D'
    ∷ pair 0x7c73 b'+'
    ∷ pair 0x7f57 b'Z'
    ∷ pair 0x82b1 b'S'
    ∷ pair 0x82cf b'F'
    ∷ pair 0x82d7 b'Q'
    ∷ pair 0x8303 b'J'
    ∷ pair 0x845b b'H'
    ∷ pair 0x848b b'c'
    ∷ pair 0x859b b'.'
    ∷ pair 0x8881 b'W'
    ∷ pair 0x891a b'a'
    ∷ pair 0x8bb8 b'j'
    ∷ pair 0x8c22 b'x'
    ∷ pair 0x8d1d b'='
    ∷ pair 0x8d75 b'0'
    ∷ pair 0x90b9 b'y'
    ∷ pair 0x90ce b'L'
    ∷ pair 0x90d1 b'6'
    ∷ pair 0x91d1 b's'
    ∷ pair 0x949f b'*'
    ∷ pair 0x94b1 b'1'
    ∷ pair 0x9648 b'9'
    ∷ pair 0x9676 b'u'
    ∷ pair 0x97e6 b'N'
    ∷ pair 0x97e9 b'e'
    ∷ pair 0x987e b'#'
    ∷ pair 0x9a6c b'P'
    ∷ pair 0x9b4f b't'
    ∷ pair 0x9c81 b'M'
    ∷ []
