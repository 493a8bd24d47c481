-- ===== src/Relay/Topics.antt =====
-- The topics of a subscriber's URI: `parseTopic` of notifier.cpp.
pub mod Query
use c_playground.Common.{
  ℕ, zero, suc, ◌+◌, Bool, true, false, Option, none, some, List, [], ◌∷◌, ◌++◌, ◌==◌, leb,
  if◌then◌else◌, length, drop, c_string,
}

-- The longest run of characters that are not `c`: what %[^c] matches.
unfoldable pub span_until : ℕ → List ℕ → List ℕ
span_until c [] = []
span_until c (b ∷ s) = let rest = span_until c s in if b == c then [] else b ∷ rest

-- What `sscanf` did: it stored a key and a value and set `n`, or stopped before the value, or stored
-- past the end of an array.
pub data Scanned : Type 0 where
  stored : List ℕ → ℕ → Scanned
  unmatched : Scanned
  past_array : Scanned

-- A text and its NUL in 16 bytes.
unfoldable pub fits_array : List ℕ → Bool
fits_array s = leb (suc (length s)) 16

unfoldable pub scan_value : (key value : List ℕ) → Scanned
scan_value key [] = unmatched
scan_value key (b ∷ value) =
    if fits_array (b ∷ value)
    then stored (b ∷ value) (length key + 1 + length (b ∷ value))
    else past_array

unfoldable pub scan_behind_key : (key rest : List ℕ) → Scanned
scan_behind_key key [] = unmatched
scan_behind_key key (b ∷ rest) = scan_value key (span_until b'&' rest)

unfoldable pub scan_key : (key s : List ℕ) → Scanned
scan_key [] s = unmatched
scan_key (b ∷ key) s =
    if fits_array (b ∷ key)
    then scan_behind_key (b ∷ key) (drop (length (b ∷ key)) s)
    else past_array

-- sscanf(s, "%[^=]=%[^&]%n", k, v, &n), which reads the text up to its first NUL.
unfoldable pub scan_pair : List ℕ → Scanned
scan_pair s = let text : List ℕ = c_string s in scan_key (span_until b'=' text) text

-- The result, or that `v` was read before anything was stored, or a store past an array.
pub data Topics : Type 0 where
  topics : List (List ℕ) → Topics
  unset : Topics
  overrun : Topics

unfoldable pub with_topic : List ℕ → Topics → Topics
with_topic v (topics vs) = topics (v ∷ vs)
with_topic v unset = unset
with_topic v overrun = overrun

-- What is pushed when `sscanf` left `v` alone.
unfoldable pub push_old : Option (List ℕ) → Topics → Topics
push_old none rest = unset
push_old (some v) rest = with_topic v rest

-- One turn: the push, and the loop from where `n` leads.
unfoldable pub topic_turn :
    (Option (List ℕ) → List ℕ → Topics) → Option (List ℕ) → List ℕ → Scanned → Topics
topic_turn next old s (stored v n) = with_topic v (next (some v) (drop n s))
topic_turn next old s unmatched = push_old old (next old s)
topic_turn next old s past_array = overrun

-- The loop on the text from `uri[i]` on, with what `v` holds; each turn passes one character at least.
unfoldable pub topic_loop : (fuel : ℕ) → Option (List ℕ) → List ℕ → Topics
topic_loop zero old s = topics []
topic_loop (suc fuel) old [] = topics []
topic_loop (suc fuel) old (b ∷ []) = topics []
topic_loop (suc fuel) old (b ∷ (c ∷ s)) =
    topic_turn (topic_loop fuel) old (c ∷ s) (scan_pair (c ∷ s))

-- The text from the first '?' on.
unfoldable pub query_of : List ℕ → List ℕ
query_of [] = []
query_of (b ∷ s) = let rest = query_of s in if b == b'?' then b ∷ s else rest

unfoldable pub parse_topic : List ℕ → Topics
parse_topic uri = topic_loop (length uri) none (query_of uri)
