-- ===== src/NameCodec/Stream.antt =====
-- trivial/name_codec.c: `utf8_stream_init` and `utf8_stream_next`.
use c_playground.Common.{ℕ, ◌-◌, ◌<◌, ◌^◌, ◌≡◌, refl, sym, arith, List, [], ◌∷◌, ◌++◌}
use c_playground.Common.{Option, none, some, length, take, drop, drop-length_append}
use c_playground.NameCodec.Utf8.{utf8_decode}
use c_playground.NameCodec.Utf8.Encode.{utf8_bytes, utf8_size}
use c_playground.NameCodec.Utf8.Decode.{utf8_decode-utf8_bytes}

-- `struct st_utf8_stream_t`: the bytes from `p` up to `e`.
pub record Stream : Type 0 where
  pub bytes : List ℕ

unfoldable pub stream_init : List ℕ → ℕ → Stream
stream_init p len = record { bytes = take len p }

-- `(unsigned)-1`
abbrev pub minus_one : ℕ
minus_one = 2 ^ 32 - 1

unfoldable pub stream_step : Stream → List ℕ → Option (ℕ × ℕ) → ℕ × Option ℕ × Stream
stream_step s [] o = (minus_one, none, s)
stream_step s (b ∷ rest) none = (minus_one, none, s)
stream_step s (b ∷ rest) (some (c, u)) = (u, some c, record { bytes = drop c s.bytes })

-- The value returned, what is stored through `utf8size` (`none`: nothing), and the stream after.
unfoldable pub stream_next : Stream → ℕ × Option ℕ × Stream
unfolding stream_step
stream_next s = stream_step s s.bytes (utf8_decode s.bytes)

step_some :
    (front rest : List ℕ) (c u : ℕ)
    → 0 < length front
    → c ≡ length front
    → stream_step (record { bytes = front ++ rest }) (front ++ rest) (some (c, u))
      ≡ (u, some c, record { bytes = rest })
unfolding stream_step
step_some [] rest c u h e = absurd (omega arith)
step_some (b ∷ front) rest c u h e = rw e (rw (drop-length_append (b ∷ front) rest))

pub length-utf8_bytes : (x : ℕ) → length (utf8_bytes x) ≡ utf8_size x
length-utf8_bytes x = ground arith

-- Reading where the UTF-8 form of a code point stands returns the code point and its size, and
-- leaves what follows.
pub stream_next-utf8_bytes :
    (x : ℕ) (rest : List ℕ)
    → x < 2 ^ 21
    → stream_next (record { bytes = utf8_bytes x ++ rest })
      ≡ (x, some (utf8_size x), record { bytes = rest })
unfolding stream_next
stream_next-utf8_bytes x rest h =
    rw (utf8_decode-utf8_bytes x rest h)
      (step_some (utf8_bytes x) rest (utf8_size x) x (ground arith) (sym (length-utf8_bytes x)))

-- A read that decodes returns the code point and its size, and moves past it.
pub stream_next-some :
    (bs : List ℕ) (c u : ℕ)
    → utf8_decode bs ≡ some (c, u)
    → stream_next (record { bytes = bs }) ≡ (u, some c, record { bytes = drop c bs })
unfolding stream_next stream_step utf8_decode
stream_next-some [] c u e = cc
stream_next-some (b ∷ bs) c u e = rw e refl

-- A read at the end or at malformed bytes returns -1 and stays where it is.
pub stream_next-none :
    (bs : List ℕ)
    → utf8_decode bs ≡ none
    → stream_next (record { bytes = bs }) ≡ (minus_one, none, record { bytes = bs })
unfolding stream_next stream_step
stream_next-none [] e = refl
stream_next-none (b ∷ bs) e = rw e refl
