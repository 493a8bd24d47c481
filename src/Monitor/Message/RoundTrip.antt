-- ===== src/Monitor/Message/RoundTrip.antt =====
-- What `pack` writes, `unpack` reads back, whatever follows it.
use c_playground.Common.{
  ℕ, suc, ◌+◌, ◌^◌, ◌<◌, ◌≤◌, ◌≡◌, refl, sym, ap, ap₂, ◌∙◌, arith, List, [], ◌∷◌, ◌++◌,
  append_assoc, length, length-append, take, drop, take-length_append, drop-length_append, le→ltb,
}
use c_playground.Common.Int.{ℤ, pos}
use c_playground.Common.Words.{
  le_bytes, le_value, int_word, word_int, IsInt, word_int-int_word, int_word_bound, length-le_bytes,
  le_value-le_bytes,
}
use c_playground.Monitor.Message.{
  Unpacked, accepted, unpack_word, unpack_int, unpack_sized, unpack_string, unpack_vector, pack_int,
  pack_string, pack_vector, MsgRequest, MsgResponse, MsgHeartbeat, pack_request, pack_response,
  pack_heartbeat, and_then, map_unpacked, request, response, unpack_request, unpack_response,
  unpack_heartbeat,
}

-- The word that four bytes hold.
pub word_of_bytes : (z : ℤ) → IsInt z → word_int (le_value (le_bytes 4 (int_word z))) ≡ z
word_of_bytes z h =
    ap word_int (le_value-le_bytes 4 (int_word z) (int_word_bound z)) ∙ word_int-int_word z h

four_bytes :
    (t : ℤ) (a b c d : ℕ) (rest : List ℕ)
    → unpack_int t (a ∷ b ∷ c ∷ d ∷ rest) ≡ accepted (word_int (le_value (a ∷ b ∷ c ∷ d ∷ []))) rest
unfolding unpack_int
four_bytes t a b c d rest = rw (le→ltb (length (a ∷ b ∷ c ∷ d ∷ rest)) 4 (omega arith)) refl

pub unpack_int-bytes :
    (t z : ℤ) (rest : List ℕ)
    → IsInt z
    → unpack_int t (le_bytes 4 (int_word z) ++ rest) ≡ accepted z rest
unfolding le_bytes
unpack_int-bytes t z rest h =
    four_bytes t _ _ _ _ rest ∙ ap (λ v. accepted v rest) (word_of_bytes z h)

-- An empty text leaves the object as it was.
abbrev pub over : List ℕ → List ℕ → List ℕ
over t [] = t
over t (c ∷ s) = c ∷ s

unpack_sized_text :
    (extra : ℕ) (t : List ℕ) (c : ℕ) (s e rest : List ℕ)
    → length e ≡ extra
    → unpack_sized extra t (accepted (pos (length (c ∷ s))) ((c ∷ s) ++ (e ++ rest)))
      ≡ accepted (c ∷ s) rest
unpack_sized_text extra t c s e rest h =
    unfold unpack_sized in
    rw (le→ltb (length (c ∷ s ++ (e ++ rest))) (suc (length s) + extra) enough)
      (ap₂ accepted (take-length_append (c ∷ s) (e ++ rest)) behind)
  where
    size : length (c ∷ s ++ (e ++ rest)) ≡ suc (length s) + (extra + length rest)
    size = omega (arith, length-append s (e ++ rest), length-append e rest)

    enough : suc (length s) + extra ≤ length (c ∷ s ++ (e ++ rest))
    enough = omega (arith, size)

    same : suc (length s) + extra ≡ length (c ∷ s ++ e)
    same = omega (arith, length-append s e)

    behind : drop (suc (length s) + extra) (c ∷ s ++ (e ++ rest)) ≡ rest
    behind =
        ap₂ drop same (sym (append_assoc (c ∷ s) e rest)) ∙ drop-length_append (c ∷ s ++ e) rest

string_layout :
    (w : List ℕ) (c : ℕ) (s rest : List ℕ)
    → pack_string w (c ∷ s) ++ rest
      ≡ w ++ (le_bytes 4 (int_word (pos (length (c ∷ s)))) ++ ((c ∷ s) ++ ((0 ∷ []) ++ rest)))
string_layout w c s rest = unfold pack_string pack_int in simp append_assoc

vector_layout :
    (w : List ℕ) (c : ℕ) (s rest : List ℕ)
    → pack_vector w (c ∷ s) ++ rest
      ≡ w ++ (le_bytes 4 (int_word (pos (length (c ∷ s)))) ++ ((c ∷ s) ++ ([] ++ rest)))
vector_layout w c s rest = unfold pack_vector pack_int in simp append_assoc

pub string_from :
    (t u : List ℕ) (z : ℤ) (s : List ℕ)
    → unpack_int (pos 0) u ≡ accepted z s
    → unpack_string t u ≡ unpack_sized 1 t (accepted z s)
unfolding unpack_string
string_from t u z s e = ap (unpack_sized 1 t) e

pub unpack_string-pack_string :
    (t s rest : List ℕ)
    → length s < 2 ^ 31
    → unpack_string t (pack_string [] s ++ rest) ≡ accepted (over t s) rest
unpack_string-pack_string t [] rest h =
    unfold unpack_string pack_string pack_int in
    ap (unpack_sized 1 t) (unpack_int-bytes (pos 0) (pos 0) rest (omega arith))
    ∙ (unfold unpack_sized in refl)
unpack_string-pack_string t (c ∷ s) rest h =
    ap (unpack_string t) (string_layout [] c s rest)
    ∙ string_from t _ _ _ (unpack_int-bytes (pos 0) (pos (length (c ∷ s))) _ h)
    ∙ unpack_sized_text 1 t c s (0 ∷ []) rest refl

vector_from :
    (t u : List ℕ) (z : ℤ) (s : List ℕ)
    → unpack_int (pos 0) u ≡ accepted z s
    → unpack_vector t u ≡ unpack_sized 0 t (accepted z s)
unfolding unpack_vector
vector_from t u z s e = ap (unpack_sized 0 t) e

pub unpack_vector-pack_vector :
    (t s rest : List ℕ)
    → length s < 2 ^ 31
    → unpack_vector t (pack_vector [] s ++ rest) ≡ accepted (over t s) rest
unpack_vector-pack_vector t [] rest h =
    unfold unpack_vector pack_vector pack_int in
    ap (unpack_sized 0 t) (unpack_int-bytes (pos 0) (pos 0) rest (omega arith))
    ∙ (unfold unpack_sized in refl)
unpack_vector-pack_vector t (c ∷ s) rest h =
    ap (unpack_vector t) (vector_layout [] c s rest)
    ∙ vector_from t _ _ _ (unpack_int-bytes (pos 0) (pos (length (c ∷ s))) _ h)
    ∙ unpack_sized_text 0 t c s [] rest refl

-- Behind what the packer has.
pack_vector_behind : (w s : List ℕ) → pack_vector w s ≡ w ++ pack_vector [] s
pack_vector_behind w [] = unfold pack_vector pack_int in refl
pack_vector_behind w (c ∷ s) = unfold pack_vector pack_int in simp append_assoc

module _ {A B M : Type 0} (put : A → B → M) (b : B) (next : List ℕ → Unpacked B) where
  pub and_then-accepted :
      (m : Unpacked A) (a : A) (b' : B) (s s' : List ℕ)
      → m ≡ accepted a s
      → next s ≡ accepted b' s'
      → and_then put b m next ≡ accepted (put a b') s'
  unfolding and_then map_unpacked
  and_then-accepted m a b' s s' e k = rw e (ap (map_unpacked (put a)) k)

-- A response is read back into any message, whatever follows it; a member that is empty on the wire
-- keeps what the message held.
pub unpack_response-pack_response :
    (m v : MsgResponse) (rest : List ℕ)
    → length v.r1 < 2 ^ 31
    → length v.r2 < 2 ^ 31
    → unpack_response m (pack_response v ++ rest)
      ≡ accepted (response (over m.r1 v.r1) (over m.r2 v.r2)) rest
unpack_response-pack_response m v rest h k =
    ap (unpack_response m) layout
    ∙ (unfold unpack_response in
        and_then-accepted response m.r2 (unpack_vector m.r2) _ _ _ _ _
          (unpack_string-pack_string m.r1 v.r1 (pack_vector [] v.r2 ++ rest) h)
          (unpack_vector-pack_vector m.r2 v.r2 rest k))
  where
    layout : pack_response v ++ rest ≡ pack_string [] v.r1 ++ (pack_vector [] v.r2 ++ rest)
    layout =
        unfold pack_response in
        ap (λ s. s ++ rest) (pack_vector_behind (pack_string [] v.r1) v.r2)
        ∙ append_assoc (pack_string [] v.r1) (pack_vector [] v.r2) rest

-- A request is read back, whatever follows it and whatever the message held.
pub unpack_request-pack_request :
    (m v : MsgRequest) (rest : List ℕ)
    → IsInt v.op
    → IsInt v.arg
    → unpack_request m (pack_request v ++ rest) ≡ accepted v rest
unpack_request-pack_request m v rest h k =
    ap (unpack_request m) layout
    ∙ (unfold unpack_request in
        and_then-accepted request m.arg (unpack_int m.arg) _ _ _ _ _
          (unpack_int-bytes m.op v.op (le_bytes 4 (int_word v.arg) ++ rest) h)
          (unpack_int-bytes m.arg v.arg rest k))
  where
    layout :
        pack_request v ++ rest ≡ le_bytes 4 (int_word v.op) ++ (le_bytes 4 (int_word v.arg) ++ rest)
    layout =
        unfold pack_request pack_int in
        append_assoc (le_bytes 4 (int_word v.op)) (le_bytes 4 (int_word v.arg)) rest

unpack_word-bytes :
    (k t n : ℕ) (rest : List ℕ)
    → n < 256 ^ k
    → unpack_word k t (le_bytes k n ++ rest) ≡ accepted n rest
unfolding unpack_word
unpack_word-bytes k t n rest h =
    let size = length-le_bytes k n in
    rw (le→ltb (length (le_bytes k n ++ rest)) k (omega (arith, length-append (le_bytes k n) rest)))
      (ap₂ accepted
        (ap le_value (
            ap (λ i. take i (le_bytes k n ++ rest)) (sym size)
            ∙ take-length_append (le_bytes k n) rest)
          ∙ le_value-le_bytes k n h)
        (ap (λ i. drop i (le_bytes k n ++ rest)) (sym size)
          ∙ drop-length_append (le_bytes k n) rest))

-- A timestamp is read back bit by bit.
pub unpack_heartbeat-pack_heartbeat :
    (m v : MsgHeartbeat) (rest : List ℕ)
    → v.timestamp < 256 ^ 8
    → unpack_heartbeat m (pack_heartbeat v ++ rest) ≡ accepted v rest
unpack_heartbeat-pack_heartbeat m v rest h =
    unfold unpack_heartbeat pack_heartbeat in
    ap (map_unpacked (λ t. record { timestamp = t })) (unpack_word-bytes 8 _ _ rest h)
    ∙ (unfold map_unpacked in refl)
