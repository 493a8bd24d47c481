-- ===== src/Relay/Topics/Query.antt =====
-- What `parseTopic` reads from a query of keys and values.
use c_playground.Common.{
  ℕ, zero, suc, ◌+◌, ◌≤◌, ◌≡◌, ◌≢◌, refl, ap, ap₂, sym, ◌∙◌, true, Option, none, some, List, [],
  ◌∷◌, ◌++◌, append_assoc, leb, ne→==, eq→==, length, length-append, drop, drop-length_append, All,
  All-append, All-weaken, c_string, ◌<◌, arith,
}
use c_playground.Relay.Topics.{
  span_until, stored, fits_array, scan_value, scan_behind_key, scan_key, scan_pair, topics,
  with_topic, topic_turn, topic_loop, query_of, parse_topic,
}

-- A text of 1 to 15 characters without NUL and `c`.
abbrev pub IsToken : ℕ → List ℕ → Type 0
IsToken c s = (1 ≤ length s) × (length s ≤ 15) × All (λ b. (0 < b) × (b ≢ c)) s

abbrev pub IsPair : List ℕ × List ℕ → Type 0
IsPair p = IsToken b'=' p.0 × IsToken b'&' p.1

-- The pairs, each behind an ampersand.
abbrev pub pairs_text : List (List ℕ × List ℕ) → List ℕ
pairs_text [] = []
pairs_text (p ∷ ps) = b'&' ∷ (p.0 ++ (b'=' ∷ (p.1 ++ pairs_text ps)))

abbrev pub values : List (List ℕ × List ℕ) → List (List ℕ)
values [] = []
values (p ∷ ps) = p.1 ∷ values ps

span_stop : (c : ℕ) (s rest : List ℕ) → All (λ b. b ≢ c) s → span_until c (s ++ (c ∷ rest)) ≡ s
unfolding span_until
span_stop c [] rest h = rw (eq→== c c refl) refl
span_stop c (b ∷ s) rest h = rw (ne→== b c h.0) (ap (λ r. b ∷ r) (span_stop c s rest h.1))

span_end : (c : ℕ) (s : List ℕ) → All (λ b. b ≢ c) s → span_until c (s ++ []) ≡ s
unfolding span_until
span_end c [] h = refl
span_end c (b ∷ s) h = rw (ne→== b c h.0) (ap (λ r. b ∷ r) (span_end c s h.1))

span_value :
    (v : List ℕ) (ps : List (List ℕ × List ℕ))
    → All (λ b. b ≢ b'&') v
    → span_until b'&' (v ++ pairs_text ps) ≡ v
span_value v [] h = span_end b'&' v h
span_value v (p ∷ ps) h = span_stop b'&' v _ h

fits_token : (s : List ℕ) → length s ≤ 15 → fits_array s ≡ true
unfolding fits_array
fits_token s h = short (length s) h
  where
    short : (n : ℕ) → n ≤ 15 → leb (suc n) 16 ≡ true
    short n h = ground arith

scan_value_token :
    (key v : List ℕ)
    → 1 ≤ length v
    → length v ≤ 15
    → scan_value key v ≡ stored v (length key + 1 + length v)
unfolding scan_value
scan_value_token key [] h k = absurd (omega arith)
scan_value_token key (b ∷ v) h k = rw (fits_token (b ∷ v) k) refl

scan_key_token :
    (key s : List ℕ)
    → 1 ≤ length key
    → length key ≤ 15
    → scan_key key s ≡ scan_behind_key key (drop (length key) s)
unfolding scan_key
scan_key_token [] s h k = absurd (omega arith)
scan_key_token (b ∷ key) s h k = rw (fits_token (b ∷ key) k) refl

-- A pair and the pairs behind it.
abbrev pub body : List ℕ × List ℕ → List (List ℕ × List ℕ) → List ℕ
body p ps = p.0 ++ (b'=' ∷ (p.1 ++ pairs_text ps))

behind_key :
    (k rest : List ℕ) → scan_behind_key k (b'=' ∷ rest) ≡ scan_value k (span_until b'&' rest)
unfolding scan_behind_key
behind_key k rest = refl

without : (c : ℕ) (s : List ℕ) → All (λ b. (0 < b) × (b ≢ c)) s → All (λ b. b ≢ c) s
without c s = All-weaken (λ b. (0 < b) × (b ≢ c)) (λ b. b ≢ c) s (λ b h. h.1)

no_nul : (c : ℕ) (s : List ℕ) → All (λ b. (0 < b) × (b ≢ c)) s → All (λ b. 0 < b) s
no_nul c s = All-weaken (λ b. (0 < b) × (b ≢ c)) (λ b. 0 < b) s (λ b h. h.0)

c_string_whole : (s : List ℕ) → All (λ b. 0 < b) s → c_string s ≡ s
c_string_whole [] h = refl
c_string_whole (zero ∷ s) h = absurd (omega (arith, h.0))
c_string_whole (suc b ∷ s) h = ap (λ r. suc b ∷ r) (c_string_whole s h.1)

body-All :
    (p : List ℕ × List ℕ) (rest : List ℕ)
    → IsPair p
    → All (λ b. 0 < b) rest
    → All (λ b. 0 < b) (p.0 ++ (b'=' ∷ (p.1 ++ rest)))
body-All (k, v) rest ((k1, k2, k3), (v1, v2, v3)) h =
    All-append (λ b. 0 < b) k _ (no_nul b'=' k k3)
      (omega arith, All-append (λ b. 0 < b) v rest (no_nul b'&' v v3) h)

pairs_text-All : (ps : List (List ℕ × List ℕ)) → All IsPair ps → All (λ b. 0 < b) (pairs_text ps)
pairs_text-All [] h = tt
pairs_text-All (p ∷ ps) h = (omega arith, body-All p (pairs_text ps) h.0 (pairs_text-All ps h.1))

scan_pair-body :
    (k v : List ℕ) (ps : List (List ℕ × List ℕ))
    → IsPair (k, v)
    → All IsPair ps
    → scan_pair (body (k, v) ps) ≡ stored v (length k + 1 + length v)
unfolding scan_pair
scan_pair-body k v ps ((k1, k2, k3), (v1, v2, v3)) hs =
    ap (λ text. scan_key (span_until b'=' text) text)
      (c_string_whole (body (k, v) ps)
        (body-All (k, v) (pairs_text ps) ((k1, k2, k3), (v1, v2, v3)) (pairs_text-All ps hs)))
    ∙ ap (λ key. scan_key key (body (k, v) ps)) (span_stop b'=' k _ (without b'=' k k3))
    ∙ scan_key_token k (body (k, v) ps) k1 k2
    ∙ ap (scan_behind_key k) (drop-length_append k (b'=' ∷ (v ++ pairs_text ps)))
    ∙ behind_key k (v ++ pairs_text ps)
    ∙ ap (scan_value k) (span_value v ps (without b'&' v v3))
    ∙ scan_value_token k v v1 v2

drop-body :
    (k v : List ℕ) (ps : List (List ℕ × List ℕ))
    → drop (length k + 1 + length v) (body (k, v) ps) ≡ pairs_text ps
drop-body k v ps =
    let t = k ++ (b'=' ∷ v) in
    let n : length k + 1 + length v ≡ length t = omega (arith, length-append k (b'=' ∷ v)) in
    ap₂ drop n (sym (append_assoc k (b'=' ∷ v) (pairs_text ps)))
    ∙ drop-length_append t (pairs_text ps)

loop_turn :
    (fuel b : ℕ) (old : Option (List ℕ)) (s : List ℕ)
    → 1 ≤ length s
    → topic_loop (suc fuel) old (b ∷ s) ≡ topic_turn (topic_loop fuel) old s (scan_pair s)
unfolding topic_loop
loop_turn fuel b old [] h = absurd (omega arith)
loop_turn fuel b old (c ∷ s) h = refl

loop_empty : (fuel : ℕ) (old : Option (List ℕ)) → topic_loop fuel old [] ≡ topics []
unfolding topic_loop
loop_empty zero old = refl
loop_empty (suc fuel) old = refl

added_topic : (v : List ℕ) (vs : List (List ℕ)) → with_topic v (topics vs) ≡ topics (v ∷ vs)
unfolding with_topic
added_topic v vs = refl

body_long :
    (p : List ℕ × List ℕ) (ps : List (List ℕ × List ℕ))
    → 1 + length (pairs_text ps) ≤ length (body p ps)
body_long p ps =
    omega
      (arith, length-append p.0 (b'=' ∷ (p.1 ++ pairs_text ps)), length-append p.1 (pairs_text ps))

turn_body :
    (fuel b : ℕ) (old : Option (List ℕ)) (p : List ℕ × List ℕ) (ps : List (List ℕ × List ℕ))
    → IsPair p
    → All IsPair ps
    → topic_loop fuel (some p.1) (pairs_text ps) ≡ topics (values ps)
    → topic_loop (suc fuel) old (b ∷ body p ps) ≡ topics (p.1 ∷ values ps)
unfolding topic_turn
turn_body fuel b old p ps h hs rest =
    loop_turn fuel b old (body p ps) (omega (arith, body_long p ps))
    ∙ ap (topic_turn (topic_loop fuel) old (body p ps)) (scan_pair-body p.0 p.1 ps h hs)
    ∙ ap (λ s. with_topic p.1 (topic_loop fuel (some p.1) s)) (drop-body p.0 p.1 ps)
    ∙ ap (with_topic p.1) rest
    ∙ added_topic p.1 (values ps)

loop_body :
    (fuel b : ℕ) (old : Option (List ℕ)) (p : List ℕ × List ℕ) (ps : List (List ℕ × List ℕ))
    → IsPair p
    → All IsPair ps
    → length ps ≤ fuel
    → topic_loop (suc fuel) old (b ∷ body p ps) ≡ topics (p.1 ∷ values ps)
loop_body fuel b old p [] h hs l = turn_body fuel b old p [] h hs (loop_empty fuel (some p.1))
loop_body zero b old p (q ∷ qs) h hs l = absurd (omega arith)
loop_body (suc fuel) b old p (q ∷ qs) h hs l =
    turn_body (suc fuel) b old p (q ∷ qs) h hs
      (loop_body fuel b'&' (some p.1) q qs hs.0 hs.1 (omega arith))

pairs_text_long : (ps : List (List ℕ × List ℕ)) → length ps ≤ length (pairs_text ps)
pairs_text_long [] = omega arith
pairs_text_long (p ∷ ps) = omega (arith, body_long p ps, pairs_text_long ps)

query_of-append :
    (s rest : List ℕ) → All (λ b. b ≢ b'?') s → query_of (s ++ (b'?' ∷ rest)) ≡ b'?' ∷ rest
unfolding query_of
query_of-append [] rest h = refl
query_of-append (b ∷ s) rest h = rw (ne→== b b'?' h.0) (query_of-append s rest h.1)

-- From a URI whose query is pairs `key=value` with ampersands between, each key and each value of 1 to
-- 15 characters other than NUL, no key with an equals sign and no value with an ampersand in it, and no question mark
-- before the query, the values are read in their order.
pub parse_topic-values :
    (s : List ℕ) (p : List ℕ × List ℕ) (ps : List (List ℕ × List ℕ))
    → All (λ b. b ≢ b'?') s
    → IsPair p
    → All IsPair ps
    → parse_topic (s ++ (b'?' ∷ body p ps)) ≡ topics (p.1 ∷ values ps)
unfolding parse_topic
parse_topic-values s p ps h hp hs =
    ap₂ (λ fuel q. topic_loop fuel none q)
      (enough (length (s ++ (b'?' ∷ body p ps))) (length-append s (b'?' ∷ body p ps)))
      (query_of-append s (body p ps) h)
    ∙ loop_body (length s + length (body p ps)) b'?' none p ps hp hs
        (omega (arith, body_long p ps, pairs_text_long ps))
  where
    enough :
        (n : ℕ) → n ≡ length s + suc (length (body p ps)) → n ≡ suc (length s + length (body p ps))
    enough n e = omega (arith, e)
