-- ===== src/Dns/Answers.antt =====
-- socket/dns-demo.c: a response's answers from their bytes, as servers write them.
use c_playground.Common.{
  ℕ, zero, suc, ◌+◌, ◌-◌, ◌*◌, ◌<◌, ◌≤◌, ◌≡◌, refl, sym, ap, ◌∙◌, arith, List, [], ◌∷◌, ◌++◌, some,
  length, length-append, get_elem?, take, drop, All,
}
use mathlib.Core.Path.{subst}
use c_playground.Dns.{pointed, read_name, name_of, decoded}
use c_playground.Dns.Encode.{label_bytes, dotted}
use c_playground.Dns.Decode.{IsLabel}
use c_playground.Dns.Collect.{Stands, IsPlain, read_name_compressed}
use c_playground.Dns.Records.{
  short_at, Kept, kept, read_answers, AddressAt, AddressesAt, read_answers-AddressesAt,
}

-- An address of the host whose name stands where the pointer says: its labels, the pointer, class and
-- time to live, and the address.
pub record Address : Type 0 where
  pub first : List ℕ
  pub second : List ℕ
  pub others : List (List ℕ)
  pub hi : ℕ
  pub lo : ℕ
  pub class0 : ℕ
  pub class1 : ℕ
  pub ttl0 : ℕ
  pub ttl1 : ℕ
  pub ttl2 : ℕ
  pub ttl3 : ℕ
  pub ip0 : ℕ
  pub ip1 : ℕ
  pub ip2 : ℕ
  pub ip3 : ℕ

-- The pointer, the type 1, class and time to live, and the length 4.
abbrev header_bytes : Address → List ℕ
header_bytes x =
    x.hi ∷ x.lo ∷ 0 ∷ 1 ∷ x.class0 ∷ x.class1 ∷ x.ttl0 ∷ x.ttl1 ∷ x.ttl2 ∷ x.ttl3 ∷ 0 ∷ 4 ∷ []

abbrev ip_bytes : Address → List ℕ
ip_bytes x = x.ip0 ∷ x.ip1 ∷ x.ip2 ∷ x.ip3 ∷ []

-- The answers' bytes.
abbrev pub answers_bytes : List Address → List ℕ
answers_bytes [] = []
answers_bytes (x ∷ xs) = header_bytes x ++ (ip_bytes x ++ answers_bytes xs)

abbrev name_bytes : Address → List ℕ
name_bytes x = label_bytes (x.first ∷ x.second ∷ x.others)

-- The name stands at the pointer, with its zero, plain and short enough.
pub record IsHost (packet : List ℕ) (x : Address) : Type 0 where
  pub pointer : 0xc0 ≤ x.hi
  pub stands : Stands packet (pointed x.hi x.lo) (name_bytes x)
  pub ends : get_elem? packet (pointed x.hi x.lo + length (name_bytes x)) ≡ some 0
  pub plain : All IsPlain (name_bytes x)
  pub first-IsLabel : IsLabel x.first
  pub second-IsLabel : IsLabel x.second
  pub others-IsLabel : All IsLabel x.others
  pub short : length (name_bytes x) < 256

-- What is kept of the answers: the dotted name with two NULs over the old content, and the address.
abbrev kept_of : (old : List ℕ) → Address → Kept
kept_of old x = record {
  name = (x.first ++ dotted (x.second ∷ x.others)) ++ 0 ∷ 0 ∷ drop (length (name_bytes x) + 1) old;
  type = 1;
  rdata = ip_bytes x;
}

abbrev pub kept_all : (ℕ → List ℕ) → ℕ → List Address → List Kept
kept_all old i [] = []
kept_all old i (x ∷ xs) = kept_of (old i) x ∷ kept_all old (i + 1) xs

Stands-at :
    (packet s : List ℕ) (r k c : ℕ)
    → Stands packet r s
    → get_elem? s k ≡ some c
    → get_elem? packet (r + k) ≡ some c
Stands-at packet [] r k c h e = cc e
Stands-at packet (b ∷ s) r zero c h e = ap (get_elem? packet) (omega arith) ∙ h.0 ∙ e
Stands-at packet (b ∷ s) r (suc k) c h e =
    ap (get_elem? packet) (omega arith) ∙ Stands-at packet s (r + 1) k c h.1 e

Stands-prefix : (packet s t : List ℕ) (r : ℕ) → Stands packet r (s ++ t) → Stands packet r s
Stands-prefix packet [] t r h = tt
Stands-prefix packet (b ∷ s) t r h = (h.0, Stands-prefix packet s t (r + 1) h.1)

Stands-behind :
    (packet s t : List ℕ) (r : ℕ) → Stands packet r (s ++ t) → Stands packet (r + length s) t
Stands-behind packet [] t r h = subst (λ q. Stands packet q t) (omega arith) h
Stands-behind packet (b ∷ s) t r h =
    subst (λ q. Stands packet q t) (omega arith) (Stands-behind packet s t (r + 1) h.1)

drop_one :
    (packet : List ℕ) (r c : ℕ)
    → get_elem? packet r ≡ some c
    → drop r packet ≡ c ∷ drop (r + 1) packet
drop_one [] r c e = cc e
drop_one (b ∷ packet) zero c e = ap (λ x. x ∷ packet) (cc e)
drop_one (b ∷ packet) (suc r) c e =
    drop_one packet r c e ∙ ap (λ n. c ∷ drop n (b ∷ packet)) {x = suc (r + 1)} (omega arith)

Stands-take : (packet s : List ℕ) (r : ℕ) → Stands packet r s → take (length s) (drop r packet) ≡ s
Stands-take packet [] r h = refl
Stands-take packet (b ∷ s) r h =
    ap (take (suc (length s))) (drop_one packet r b h.0)
    ∙ ap (λ t. b ∷ t) (Stands-take packet s (r + 1) h.1)

labels_few : (ls : List (List ℕ)) → length ls ≤ length (label_bytes ls)
labels_few [] = omega arith
labels_few (l ∷ ls) = omega (arith, length-append l (label_bytes ls), labels_few ls)

-- The name of an answer is the one that its pointer leads to.
read_name-IsHost :
    (fuel : ℕ) (packet : List ℕ) (reader : ℕ) (old : List ℕ) (x : Address)
    → 600 ≤ fuel
    → IsHost packet x
    → Stands packet reader (header_bytes x)
    → read_name fuel packet reader old ≡ name_of (decoded (kept_of old x).name) 2
read_name-IsHost fuel packet reader old x f g h =
    let n = length (name_bytes x) in
    let few = labels_few (x.first ∷ x.second ∷ x.others) in
    ap (λ k. read_name k packet reader old) {y = 0 + suc (n + suc (fuel - (n + 2)))}
      (omega (arith, g.short))
    ∙ read_name_compressed [] (name_bytes x) (fuel - (n + 2)) packet reader x.hi x.lo old x.first
        x.second x.others tt tt (Stands-at packet (header_bytes x) reader 0 x.hi h refl)
        (ap (get_elem? packet) (omega arith)
          ∙ Stands-at packet (header_bytes x) reader 1 x.lo h refl)
        g.pointer g.stands g.plain g.ends refl g.first-IsLabel g.second-IsLabel g.others-IsLabel
        g.short (omega (arith, g.short, few))

short_at-Stands :
    (packet s : List ℕ) (r k hi lo : ℕ)
    → Stands packet r s
    → get_elem? s k ≡ some hi
    → get_elem? s (suc k) ≡ some lo
    → short_at packet (r + k) ≡ some (hi * 256 + lo)
unfolding short_at
short_at-Stands packet s r k hi lo h e e' =
    let a = Stands-at packet s r k hi h e in
    let b : get_elem? packet (r + k + 1) ≡ some lo =
      ap (get_elem? packet) (omega arith) ∙ Stands-at packet s r (suc k) lo h e' in
    rw (a, b) refl

Stands-AddressAt :
    (fuel : ℕ) (packet : List ℕ) (reader : ℕ) (old : List ℕ) (x : Address) (rest : List ℕ)
    → 600 ≤ fuel
    → IsHost packet x
    → Stands packet reader (header_bytes x ++ (ip_bytes x ++ rest))
    → AddressAt fuel packet old reader (kept_of old x) (reader + 16)
Stands-AddressAt fuel packet reader old x rest f g h =
    let s = header_bytes x in
    let head = Stands-prefix packet s (ip_bytes x ++ rest) reader h in
    let bytes : Stands packet (reader + 12) (ip_bytes x) =
      Stands-prefix packet (ip_bytes x) rest (reader + 12)
        (Stands-behind packet s (ip_bytes x ++ rest) reader h) in
    (
      2,
      (
        read_name-IsHost fuel packet reader old x f g head,
        short_at-Stands packet s reader 2 0 1 head refl refl,
        refl,
        ap (short_at packet) (omega arith) ∙ short_at-Stands packet s reader 10 0 4 head refl refl,
        sym (Stands-take packet (ip_bytes x) (reader + 12) bytes)
            ∙ ap (λ n. take 4 (drop n packet)) (omega arith),
        omega arith,
      ),
    )

Stands-AddressesAt :
    (fuel : ℕ) (packet : List ℕ) (old : ℕ → List ℕ) (xs : List Address) (i reader : ℕ)
    → 600 ≤ fuel
    → Stands packet reader (answers_bytes xs)
    → All (IsHost packet) xs
    → AddressesAt fuel packet old i reader (kept_all old i xs) (reader + 16 * length xs)
Stands-AddressesAt fuel packet old [] i reader f h g = omega arith
Stands-AddressesAt fuel packet old (x ∷ xs) i reader f h g =
    let ip = Stands-behind packet (header_bytes x) (ip_bytes x ++ answers_bytes xs) reader h in
    let rest : Stands packet (reader + 16) (answers_bytes xs) =
      subst (λ r. Stands packet r (answers_bytes xs)) (omega arith)
        (Stands-behind packet (ip_bytes x) (answers_bytes xs) (reader + 12) ip) in
    (
      reader + 16,
      (
        Stands-AddressAt fuel packet reader (old i) x (answers_bytes xs) f g.0 h,
        subst (AddressesAt fuel packet old (i + 1) (reader + 16) (kept_all old (i + 1) xs))
            (omega arith) (Stands-AddressesAt fuel packet old xs (i + 1) (reader + 16) f rest g.1),
      ),
    )

length-kept_all :
    (old : ℕ → List ℕ) (i : ℕ) (xs : List Address) → length (kept_all old i xs) ≡ length xs
length-kept_all old i [] = refl
length-kept_all old i (x ∷ xs) = ap suc (length-kept_all old (i + 1) xs)

-- Where the bytes of up to 20 answers stand, each a pointer, the type 1, any class and time to live, the
-- length 4 and an address, and at each pointer the name of its host (two labels or more, of fewer than 256
-- bytes together, of which each is neither 0 nor 0xc0 or more), the loop keeps for each answer in turn the dotted
-- name, the type and the four bytes of the address, and the reader stands behind the last.
pub read_answers-answers_bytes :
    (fuel : ℕ) (packet : List ℕ) (old : ℕ → List ℕ) (block : List ℕ) (xs : List Address)
    → (i reader : ℕ) → 600 ≤ fuel
    → i + length xs ≤ 20
    → Stands packet reader (answers_bytes xs)
    → All (IsHost packet) xs
    → read_answers fuel packet old block (length xs) i reader
      ≡ kept (kept_all old i xs) (reader + 16 * length xs)
read_answers-answers_bytes fuel packet old block xs i reader f n h g =
    let same = length-kept_all old i xs in
    ap (λ m. read_answers fuel packet old block m i reader) (sym same)
    ∙ read_answers-AddressesAt fuel packet old block (kept_all old i xs) i reader
        (reader + 16 * length xs) (omega (arith, same))
        (Stands-AddressesAt fuel packet old xs i reader f h g)
