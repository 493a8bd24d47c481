-- ===== src/Monitor/Message/Frame.antt =====
-- `MsgRaw::write` and `MsgRaw::read` on the two ends of a stream.
use c_playground.Common.{
  ℕ, zero, suc, ◌+◌, ◌-◌, ◌^◌, ◌<◌, ◌≤◌, ◌≡◌, refl, sym, ap, ap₂, ◌∙◌, arith, List, [], ◌∷◌, ◌++◌,
  append_assoc, true, false, Bool-cases, inl, inr, ltb→lt, length, length-append, take,
  take-length_append, drop-length_append, take-length, length-take, ltb, le→ltb, lt→ltb, ==→eq,
  ◌==◌,
}
use c_playground.Common.Int.{ℤ, pos}
use c_playground.Common.Words.{le_bytes, le_value, int_word, word_int, IsInt, length-le_bytes}
use c_playground.Monitor.Message.{pack_int, MsgRaw, write_raw, receive_payload, read_raw}
use c_playground.Monitor.Message.RoundTrip.{word_of_bytes}

-- The bytes of a whole message.
abbrev frame : MsgRaw → List ℕ
frame v =
    le_bytes 4 (int_word v.type) ++ (le_bytes 4 (int_word (pos (length v.payload))) ++ v.payload)

write_raw-frame :
    (v : MsgRaw) (sent : ℕ) → write_raw v sent ≡ ((sent == length (frame v)), take sent (frame v))
write_raw-frame v sent =
    unfold write_raw pack_int in
    ap (λ s. ((sent == length s), take sent s))
      (append_assoc (le_bytes 4 (int_word v.type)) (le_bytes 4 (int_word (pos (length v.payload))))
        v.payload)

length-frame : (v : MsgRaw) → length (frame v) ≡ 8 + length v.payload
length-frame v = omega (
  arith,
  length-append (le_bytes 4 (int_word v.type))
      (le_bytes 4 (int_word (pos (length v.payload))) ++ v.payload),
  length-append (le_bytes 4 (int_word (pos (length v.payload)))) v.payload,
  length-le_bytes 4 (int_word v.type),
  length-le_bytes 4 (int_word (pos (length v.payload))),
)

eight_bytes :
    (m : MsgRaw) (a b c d e f g i : ℕ) (s : List ℕ)
    → read_raw m (a ∷ b ∷ c ∷ d ∷ e ∷ f ∷ g ∷ i ∷ s)
      ≡ receive_payload
          (record m { type = word_int (le_value (a ∷ b ∷ c ∷ d ∷ [])) })
          (word_int (le_value (e ∷ f ∷ g ∷ i ∷ [])))
          s
unfolding read_raw
eight_bytes m a b c d e f g i s =
    rw (le→ltb (length (a ∷ b ∷ c ∷ d ∷ e ∷ f ∷ g ∷ i ∷ s)) 8 (omega arith)) refl

-- A stream that starts with the bytes of two numbers.
read_raw_header :
    (m : MsgRaw) (t l : ℤ) (s : List ℕ)
    → IsInt t
    → IsInt l
    → read_raw m (le_bytes 4 (int_word t) ++ (le_bytes 4 (int_word l) ++ s))
      ≡ receive_payload (record m { type = t }) l s
unfolding le_bytes
read_raw_header m t l s h k =
    eight_bytes m _ _ _ _ _ _ _ _ s
    ∙ ap₂ (λ a b. receive_payload (record m { type = a }) b s) (word_of_bytes t h)
        (word_of_bytes l k)

receive_payload_whole :
    (m : MsgRaw) (p rest : List ℕ)
    → m.payload ≡ []
    → receive_payload m (pos (length p)) (p ++ rest) ≡ (true, (record m { payload = p }, rest))
receive_payload_whole m [] rest e =
    unfold receive_payload in λ i. (true, (record m { payload = e i }, rest))
receive_payload_whole m (c ∷ p) rest e =
    unfold receive_payload in
    rw (le→ltb (length (c ∷ p ++ rest)) (length (c ∷ p)) (omega (arith, length-append p rest))) (
      ap₂ (λ a b. (true, (record m { payload = a }, b))) (take-length_append (c ∷ p) rest)
        (drop-length_append (c ∷ p) rest))

receive_payload_short :
    (m : MsgRaw) (l : ℕ) (s : List ℕ) → length s < l → (receive_payload m (pos l) s).0 ≡ false
receive_payload_short m zero s h = absurd (omega arith)
receive_payload_short m (suc l) s h =
    unfold receive_payload in rw (lt→ltb (length s) (suc l) h) refl

-- What `write` has sent when it returns true, `read` into a message without payload reads back, and
-- leaves the rest of the stream.
pub read_raw-write_raw :
    (m v : MsgRaw) (sent : ℕ) (rest : List ℕ)
    → m.payload ≡ []
    → IsInt v.type
    → length v.payload < 2 ^ 31
    → (write_raw v sent).0 ≡ true
    → read_raw m ((write_raw v sent).1 ++ rest) ≡ (true, (v, rest))
read_raw-write_raw m v sent rest e h k ok =
    ap (read_raw m) bytes
    ∙ read_raw_header m v.type (pos (length v.payload)) (v.payload ++ rest) h k
    ∙ receive_payload_whole (record m { type = v.type }) v.payload rest e
  where
    all_sent : sent ≡ length (frame v)
    all_sent = ==→eq sent (length (frame v)) (sym (ap (λ p. p.0) (write_raw-frame v sent)) ∙ ok)

    bytes :
        (write_raw v sent).1 ++ rest
        ≡ le_bytes 4 (int_word v.type)
          ++ (le_bytes 4 (int_word (pos (length v.payload))) ++ (v.payload ++ rest))
    bytes =
        ap (λ p. p.1 ++ rest) (write_raw-frame v sent)
        ∙ ap (λ n. take n (frame v) ++ rest) all_sent
        ∙ ap (λ s. s ++ rest) (take-length (frame v))
        ∙ append_assoc (le_bytes 4 (int_word v.type)) _ rest
        ∙ ap (λ s. le_bytes 4 (int_word v.type) ++ s)
            (append_assoc (le_bytes 4 (int_word (pos (length v.payload)))) v.payload rest)

read_raw_short : (m : MsgRaw) (s : List ℕ) → length s < 8 → (read_raw m s).0 ≡ false
read_raw_short m s h = unfold read_raw in rw (lt→ltb (length s) 8 h) refl

take-frame :
    (v : MsgRaw) (j : ℕ)
    → take (suc (suc (suc (suc (suc (suc (suc (suc j)))))))) (frame v)
      ≡ le_bytes 4 (int_word v.type)
        ++ (le_bytes 4 (int_word (pos (length v.payload))) ++ take j v.payload)
unfolding le_bytes
take-frame v j = refl

-- When the stream ends before a message is whole, `read` returns false.
pub read_raw_cut :
    (m v : MsgRaw) (sent : ℕ)
    → IsInt v.type
    → length v.payload < 2 ^ 31
    → sent < 8 + length v.payload
    → (read_raw m (write_raw v sent).1).0 ≡ false
read_raw_cut m v sent h k l = elim (Bool-cases (ltb sent 8)) [
  | inl few ↦
      ap (λ p. (read_raw m p.1).0) (write_raw-frame v sent)
      ∙ read_raw_short m (take sent (frame v))
          (omega (arith, length-take sent (frame v), ltb→lt sent 8 few))
  | inr more ↦
      let j : ℕ = sent - 8 in
      let high : 8 ≤ sent = ground arith in
      let same : sent ≡ suc (suc (suc (suc (suc (suc (suc (suc j))))))) = omega arith in
      ap (λ p. (read_raw m p.1).0) (write_raw-frame v sent)
      ∙ ap (λ n. (read_raw m (take n (frame v))).0) same
      ∙ ap (λ s. (read_raw m s).0) (take-frame v j)
      ∙ ap (λ r. r.0) (read_raw_header m v.type (pos (length v.payload)) (take j v.payload) h k)
      ∙ receive_payload_short (record m { type = v.type }) (length v.payload) (take j v.payload)
          (omega (arith, length-take j v.payload))
]
