-- ===== src/Dns/Records.antt =====
-- socket/dns-demo.c: the answers of a response, as `ngethostbyname` reads them.
use c_playground.Common.{
  ℕ, zero, suc, ◌+◌, ◌*◌, ◌/◌, ◌%◌, ◌<◌, ◌≤◌, ◌≡◌, refl, sym, ap, ap₂, ◌∙◌, arith, List, [], ◌∷◌,
  ◌++◌, Option, none, some, true, false, leb, ltb, ◌==◌, if◌then◌else◌, length, get_elem?, take,
  drop, ne→==, ◌≢◌,
}
use c_playground.Dns.{decoded, Name, name_of, read_name}
use c_playground.Dns.Older.{OlderName, older_name, older_read_name}

abbrev pair : Option ℕ → Option ℕ → Option ℕ
pair (some hi) (some lo) = some (hi * 256 + lo)
pair (some hi) none = none
pair none o = none

-- `ntohs` of the two bytes at an index of the response.
unfoldable pub short_at : List ℕ → ℕ → Option ℕ
short_at packet i = pair (get_elem? packet i) (get_elem? packet (i + 1))

-- One answer: the buffer of its name, its type and data, and the reader behind it; a copy past
-- `rdata[4]`; or a name or header that could not be read.
pub data Answer : Type 0 where
  answered : List ℕ → ℕ → List ℕ → ℕ → Answer
  past_rdata : Answer
  unread : Answer

-- The data of an answer of another type: `ReadName` at `at`, of whose block as many bytes are copied as
-- `data_len` says without `ntohs`; `block` is what the block holds behind the name and its NUL.
unfoldable pub other_data : List ℕ → ℕ → ℕ → ℕ → List ℕ → OlderName → Answer
other_data name type len at block (older_name s count) =
    let copied : ℕ = len % 256 * 256 + len / 256 in
    if leb copied 4
    then answered name type (take copied (s ++ 0 ∷ block)) (at + count)
    else past_rdata
other_data name type len at block _ = unread

-- The header at `at` and what follows it. (A length from 0x8000 on is negative in the `s16`, and `memcpy`
-- takes it for a huge one.)
unfoldable pub answer_data : ℕ → List ℕ → List ℕ → List ℕ → ℕ → Option ℕ → Option ℕ → Answer
unfolding other_data
answer_data fuel packet block name at (some type) (some len) =
    if type == 1
    then (if leb len 4
        then answered name type (take len (drop (at + 10) packet)) (at + 10 + len)
        else past_rdata)
    else other_data name type len (at + 10) block (older_read_name fuel packet (at + 10))
answer_data fuel packet block name at (some type) none = unread
answer_data fuel packet block name at none o = unread

unfoldable pub answer_named : ℕ → List ℕ → List ℕ → ℕ → Name → Answer
unfolding answer_data short_at
answer_named fuel packet block reader (name_of (decoded name) stop) =
    let at : ℕ = reader + stop in
    answer_data fuel packet block name at (short_at packet at) (short_at packet (at + 8))
answer_named fuel packet block reader _ = unread

-- The body of the loop over the answers; `old` is what `name` held.
unfoldable pub read_answer : ℕ → List ℕ → List ℕ → List ℕ → ℕ → Answer
unfolding answer_named
read_answer fuel packet old block reader =
    answer_named fuel packet block reader (read_name fuel packet reader old)

-- An answer that is kept in `answers[i]`.
pub record Kept : Type 0 where
  pub name : List ℕ
  pub type : ℕ
  pub rdata : List ℕ

-- The loop: the answers kept and the reader behind them, or the first access that goes wrong.
pub data Answers : Type 0 where
  kept : List Kept → ℕ → Answers
  past_answers : Answers
  failed : Answer → Answers

unfoldable pub keep : Answer → (ℕ → Answers) → Answers
keep past_rdata go = failed past_rdata
keep unread go = failed unread
keep (answered name type rdata reader) go = elim (go reader) [
  | kept xs end ↦ kept (record { name = name; type = type; rdata = rdata } ∷ xs) end
  | past_answers ↦ past_answers
  | failed a ↦ failed a
]

-- The loop over the answers from the `i`th on, `left` of them; there are 20 places.
unfoldable pub read_answers :
    (fuel : ℕ) → List ℕ → (ℕ → List ℕ) → List ℕ → (left i reader : ℕ) → Answers
unfolding keep read_answer
read_answers fuel packet old block zero i reader = kept [] reader
read_answers fuel packet old block (suc left) i reader =
    if ltb i 20
    then keep (read_answer fuel packet (old i) block reader)
        (read_answers fuel packet old block left (i + 1))
    else past_answers

-- At `reader` stands an IPv4 address of four bytes, kept as `x`, and `end` is the reader behind it.
abbrev pub AddressAt : ℕ → List ℕ → List ℕ → ℕ → Kept → ℕ → Type 0
AddressAt fuel packet old reader x end =
    (stop : ℕ) × ((read_name fuel packet reader old ≡ name_of (decoded x.name) stop)
      × (short_at packet (reader + stop) ≡ some x.type)
      × (x.type ≡ 1)
      × (short_at packet (reader + stop + 8) ≡ some 4)
      × (x.rdata ≡ take 4 (drop (reader + stop + 10) packet))
      × (end ≡ reader + stop + 14))

read_answer-AddressAt :
    (fuel : ℕ) (packet old block : List ℕ) (reader : ℕ) (x : Kept) (end : ℕ)
    → AddressAt fuel packet old reader x end
    → read_answer fuel packet old block reader ≡ answered x.name x.type x.rdata end
read_answer-AddressAt fuel packet old block reader x end (stop, (e, t, one, l, d, b)) =
    unfold read_answer in
    ap (answer_named fuel packet block reader) e
    ∙ (unfold answer_named in
        ap₂ (answer_data fuel packet block x.name (reader + stop)) t l
        ∙ (unfold answer_data in rw one (ap₂ (answered x.name 1) (sym d) (omega (arith, b)))))

-- The answers one after the other.
abbrev pub AddressesAt : ℕ → List ℕ → (ℕ → List ℕ) → ℕ → ℕ → List Kept → ℕ → Type 0
AddressesAt fuel packet old i reader [] end = end ≡ reader
AddressesAt fuel packet old i reader (x ∷ xs) end =
    (next : ℕ) × (AddressAt fuel packet (old i) reader x next
      × AddressesAt fuel packet old (i + 1) next xs end)

abbrev more : Kept → Answers → Answers
more x (kept xs end) = kept (x ∷ xs) end
more x past_answers = past_answers
more x (failed a) = failed a

read_answers_next :
    (fuel : ℕ) (packet : List ℕ) (old : ℕ → List ℕ) (block : List ℕ) (left i reader : ℕ) (x : Kept)
    → (next : ℕ) → i < 20
    → AddressAt fuel packet (old i) reader x next
    → read_answers fuel packet old block (suc left) i reader
      ≡ more x (read_answers fuel packet old block left (i + 1) next)
read_answers_next fuel packet old block left i reader x next h a =
    unfold read_answers in
    rw (below i h) (
      ap (λ o. keep o (read_answers fuel packet old block left (i + 1)))
        (read_answer-AddressAt fuel packet (old i) block reader x next a)
      ∙ (unfold keep in refl))
  where
    below : (i : ℕ) → i < 20 → ltb i 20 ≡ true
    below i h = ground arith

-- Up to 20 answers that are IPv4 addresses of four bytes are all kept, in their order, and the reader
-- stands behind the last.
pub read_answers-AddressesAt :
    (fuel : ℕ) (packet : List ℕ) (old : ℕ → List ℕ) (block : List ℕ) (xs : List Kept)
    → (i reader end : ℕ) → i + length xs ≤ 20
    → AddressesAt fuel packet old i reader xs end
    → read_answers fuel packet old block (length xs) i reader ≡ kept xs end
read_answers-AddressesAt fuel packet old block [] i reader end h a =
    unfold read_answers in ap (kept []) (sym a)
read_answers-AddressesAt fuel packet old block (x ∷ xs) i reader end h (next, (a, rest)) =
    read_answers_next fuel packet old block (length xs) i reader x next (omega arith) a
    ∙ ap (more x)
        (read_answers-AddressesAt fuel packet old block xs (i + 1) next end (omega arith) rest)

-- An answer of another type that says 1 to 255 bytes of data, and whose data `ReadName` can read, is
-- copied past `rdata`.
pub read_answers_past_rdata :
    (fuel : ℕ) (packet : List ℕ) (old : ℕ → List ℕ) (block : List ℕ) (left i reader : ℕ)
    → (name s : List ℕ) (stop type len count : ℕ) → i < 20
    → read_name fuel packet reader (old i) ≡ name_of (decoded name) stop
    → short_at packet (reader + stop) ≡ some type
    → type ≢ 1
    → short_at packet (reader + stop + 8) ≡ some len
    → 0 < len
    → len < 256
    → older_read_name fuel packet (reader + stop + 10) ≡ older_name s count
    → read_answers fuel packet old block (suc left) i reader ≡ failed past_rdata
read_answers_past_rdata fuel packet old block left i reader name s stop type len count h e t other l
      pos small r =
    unfold read_answers in
    rw (below i h) (
      ap (λ o. keep o (read_answers fuel packet old block left (i + 1))) answer
      ∙ (unfold keep in refl))
  where
    below : (i : ℕ) → i < 20 → ltb i 20 ≡ true
    below i h = ground arith

    large : leb (len % 256 * 256 + len / 256) 4 ≡ false
    large = past (len % 256 * 256 + len / 256) (omega arith)
      where
        past : (n : ℕ) → 4 < n → leb n 4 ≡ false
        past n h = ground arith

    answer : read_answer fuel packet (old i) block reader ≡ past_rdata
    answer =
        unfold read_answer in
        ap (answer_named fuel packet block reader) e
        ∙ (unfold answer_named in
            ap₂ (answer_data fuel packet block name (reader + stop)) t l
            ∙ (unfold answer_data in
                rw (ne→== type 1 other, r) (unfold other_data in rw large refl)))
