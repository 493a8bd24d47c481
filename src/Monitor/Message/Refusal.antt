-- ===== src/Monitor/Message/Refusal.antt =====
-- What `unpack` does on a negative length and on a text that is cut short.
use c_playground.Common.{
  ℕ, zero, suc, ◌+◌, ◌^◌, ◌<◌, ◌≤◌, ◌≡◌, refl, ap, ◌∙◌, arith, List, ◌++◌, length, lt→ltb,
}
use c_playground.Common.Int.{pos, negsuc}
use c_playground.Common.Words.{le_bytes, int_word}
use c_playground.Monitor.Message.{
  Unpacked, accepted, refused, undefined, unpack_sized, unpack_string, unpack_vector, and_then,
  response, MsgResponse, unpack_response,
}
use c_playground.Monitor.Message.RoundTrip.{unpack_int-bytes, string_from}

response_from :
    (m : MsgResponse) (s : List ℕ) (u : Unpacked (List ℕ))
    → unpack_string m.r1 s ≡ u
    → unpack_response m s ≡ and_then response m.r2 u (unpack_vector m.r2)
unfolding unpack_response
response_from m s u e = ap (λ v. and_then response m.r2 v (unpack_vector m.r2)) e

-- A length below zero passes the test against the end, and the text is copied from a range that runs
-- backwards, whatever stands behind the length.
pub unpack_response_negative :
    (m : MsgResponse) (n : ℕ) (rest : List ℕ)
    → n < 2 ^ 31
    → unpack_response m (le_bytes 4 (int_word (negsuc n)) ++ rest) ≡ undefined
unpack_response_negative m n rest h =
    response_from m _ undefined negative ∙ (unfold and_then in refl)
  where
    text :
        unpack_string m.r1 (le_bytes 4 (int_word (negsuc n)) ++ rest)
        ≡ unpack_sized 1 m.r1 (accepted (negsuc n) rest)
    text = string_from m.r1 _ _ _ (unpack_int-bytes (pos 0) (negsuc n) rest h)

    negative : unpack_string m.r1 (le_bytes 4 (int_word (negsuc n)) ++ rest) ≡ undefined
    negative = text ∙ (unfold unpack_sized in refl)

-- A text shorter than its length and its NUL is refused; the message keeps its members, and the cursor
-- stands behind the length.
pub unpack_response_cut :
    (m : MsgResponse) (l : ℕ) (text : List ℕ)
    → l < 2 ^ 31
    → 0 < l
    → length text ≤ l
    → unpack_response m (le_bytes 4 (int_word (pos l)) ++ text) ≡ refused m text
unpack_response_cut m zero text h p k = absurd (omega arith)
unpack_response_cut m (suc l) text h p k =
    response_from m _ (refused m.r1 text)
      (string_from m.r1 _ _ _ (unpack_int-bytes (pos 0) (pos (suc l)) text h) ∙ short)
    ∙ (unfold and_then in refl)
  where
    short : unpack_sized 1 m.r1 (accepted (pos (suc l)) text) ≡ refused m.r1 text
    short = unfold unpack_sized in rw (lt→ltb (length text) (suc l + 1) (omega arith)) refl
