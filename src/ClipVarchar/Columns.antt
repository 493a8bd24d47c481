-- ===== src/ClipVarchar/Columns.antt =====
-- What the copies of a column leave in it and in the reader.
use c_playground.Common.{
  ℕ, ◌+◌, ◌-◌, ◌^◌, ◌<◌, ◌≤◌, ◌≡◌, refl, sym, ap, ◌∙◌, arith, List, [], ◌∷◌, ◌++◌, append_assoc,
  Option, none, some, length, length-append, take, drop, take-length_append, drop-length_append,
  le→ltb, lt→ltb, if◌then◌else◌,
}
use c_playground.Common.Int.{ℤ, pos, negsuc, ◌+ℤ◌}
use c_playground.Common.Words.{le_bytes, le_value, word_int, length-le_bytes, le_value-le_bytes}
use c_playground.ClipVarchar.{
  copied, byte_reader_peak, read_peaked, byte_reader_read, word_short, peaked_short, peaked_int,
  Column, put_value, put_null, copy_column_varchar_notnull, unless_null,
  copy_column_varchar_nullable,
}

peak_prefix : (n : ℕ) (xs r : List ℕ) → length xs ≡ n → byte_reader_peak n (xs ++ r) ≡ some xs
peak_prefix n xs r e =
    ap (λ k. byte_reader_peak k (xs ++ r)) (sym e)
    ∙ (unfold byte_reader_peak in
        ap (λ b. if b then none else some (take (length xs) (xs ++ r)))
          (le→ltb (length (xs ++ r)) (length xs) (omega (arith, length-append xs r)))
        ∙ ap (λ l. some l) (take-length_append xs r))

read_prefix :
    (n : ℕ) (xs r : List ℕ) → length xs ≡ n → byte_reader_read (pos n) (xs ++ r) ≡ copied xs r
read_prefix n xs r e =
    unfold byte_reader_read in
    ap (read_peaked n (xs ++ r)) (peak_prefix n xs r e)
    ∙ (unfold read_peaked in
        ap (λ k. copied xs (drop k (xs ++ r))) (sym e) ∙ ap (copied xs) (drop-length_append xs r))

short_peaked :
    (n : ℕ) (s : List ℕ)
    → n < 2 ^ 15
    → peaked_short (byte_reader_peak 2 (le_bytes 2 n ++ s)) ≡ pos n
unfolding peaked_short word_short
short_peaked n s h =
    ap peaked_short (peak_prefix 2 (le_bytes 2 n) s (length-le_bytes 2 n))
    ∙ ap word_short (le_value-le_bytes 2 n (omega arith))
    ∙ ap (λ b. if b then pos n else negsuc (2 ^ 16 - 1 - n)) (lt→ltb n (2 ^ 15) h)

int_peaked :
    (n : ℕ) (s : List ℕ) → n < 2 ^ 31 → peaked_int (byte_reader_peak 4 (le_bytes 4 n ++ s)) ≡ pos n
unfolding peaked_int word_int
int_peaked n s h =
    ap peaked_int (peak_prefix 4 (le_bytes 4 n) s (length-le_bytes 4 n))
    ∙ ap word_int (le_value-le_bytes 4 n (omega arith))
    ∙ ap (λ b. if b then pos n else negsuc (2 ^ 32 - 1 - n)) (lt→ltb n (2 ^ 31) h)

abbrev pub column : List ℕ → List ℕ → List ℕ → Column
column reader value null = record { reader = reader; value = value; null = null }

plus_two : (n : ℕ) → pos n +ℤ pos 2 ≡ pos (n + 2)
unfolding ◌+ℤ◌
plus_two n = ground arith

-- From what was peaked on: `l + 2` bytes are copied.
value_copied :
    (l : ℤ) (n : ℕ) (xs r v null : List ℕ)
    → l ≡ pos n
    → length xs ≡ n + 2
    → put_value (byte_reader_read (l +ℤ pos 2) (xs ++ r)) (column (xs ++ r) v null)
      ≡ some (column r xs null)
unfolding put_value
value_copied l n xs r v null e h =
    ap (λ z. put_value (byte_reader_read (z +ℤ pos 2) (xs ++ r)) (column (xs ++ r) v null)) e
    ∙ ap (λ z. put_value (byte_reader_read z (xs ++ r)) (column (xs ++ r) v null)) (plus_two n)
    ∙ ap (λ d. put_value d (column (xs ++ r) v null)) (read_prefix (n + 2) xs r h)

-- A text with its length as a `short` is copied, its length included, and the reader stands behind it.
notnull_short :
    (len n : ℕ) (text rest v null : List ℕ)
    → len ≤ 0x7fff
    → n < 2 ^ 15
    → length text ≡ n
    → copy_column_varchar_notnull len (column ((le_bytes 2 n ++ text) ++ rest) v null)
      ≡ some (column rest (le_bytes 2 n ++ text) null)
notnull_short len n text rest v null h k e =
    unfold copy_column_varchar_notnull in
    ap (λ b. if b then long else short) (le→ltb 0x7fff len h)
    ∙ value_copied (peaked_short (byte_reader_peak 2 ((le_bytes 2 n ++ text) ++ rest))) n
        (le_bytes 2 n ++ text) rest v null
        (ap (λ s. peaked_short (byte_reader_peak 2 s)) (append_assoc (le_bytes 2 n) text rest)
          ∙ short_peaked n (text ++ rest) k)
        (omega (arith, length-append (le_bytes 2 n) text, length-le_bytes 2 n, e))
  where
    s : List ℕ
    s = (le_bytes 2 n ++ text) ++ rest

    long : Option Column
    long =
        put_value (byte_reader_read (peaked_int (byte_reader_peak 4 s) +ℤ pos 2) s)
          (column s v null)

    short : Option Column
    short =
        put_value (byte_reader_read (peaked_short (byte_reader_peak 2 s) +ℤ pos 2) s)
          (column s v null)

-- A column of a declared length above 32767 stands with its length as an `int`: its last two bytes are not
-- copied, and the reader is left before them.
pub copy_column_varchar_notnull_long :
    (len n : ℕ) (text two rest v null : List ℕ)
    → 0x7fff < len
    → n < 2 ^ 31
    → length text + 2 ≡ n
    → length two ≡ 2
    → copy_column_varchar_notnull len (column ((le_bytes 4 n ++ text) ++ (two ++ rest)) v null)
      ≡ some (column (two ++ rest) (le_bytes 4 n ++ text) null)
copy_column_varchar_notnull_long len n text two rest v null h k e t =
    unfold copy_column_varchar_notnull in
    ap (λ b. if b then long else short) (lt→ltb 0x7fff len h)
    ∙ value_copied (peaked_int (byte_reader_peak 4 s)) n (le_bytes 4 n ++ text) (two ++ rest) v null
        (ap (λ s. peaked_int (byte_reader_peak 4 s))
            (append_assoc (le_bytes 4 n) text (two ++ rest))
          ∙ int_peaked n (text ++ (two ++ rest)) k)
        (omega (arith, length-append (le_bytes 4 n) text, length-le_bytes 4 n, e))
  where
    s : List ℕ
    s = (le_bytes 4 n ++ text) ++ (two ++ rest)

    long : Option Column
    long =
        put_value (byte_reader_read (peaked_int (byte_reader_peak 4 s) +ℤ pos 2) s)
          (column s v null)

    short : Option Column
    short =
        put_value (byte_reader_read (peaked_short (byte_reader_peak 2 s) +ℤ pos 2) s)
          (column s v null)

null_read :
    (a b : ℕ) (s v null : List ℕ)
    → put_null (byte_reader_read (pos 2) (a ∷ b ∷ s)) (column (a ∷ b ∷ s) v null)
      ≡ some (column s v (a ∷ b ∷ []))
null_read a b s v null =
    unfold put_null in
    ap (λ d. put_null d (column (a ∷ b ∷ s) v null)) (read_prefix 2 (a ∷ b ∷ []) s refl)

-- A nullable column of a declared length up to 32767: behind a null info of 0 the text and its length as a
-- `short` are copied; a null info of -1 is all that is read. Either way the reader stands behind it.
pub copy_column_varchar_nullable_short :
    (len n : ℕ) (text rest v null : List ℕ)
    → len ≤ 0x7fff
    → n < 2 ^ 15
    → length text ≡ n
    → (copy_column_varchar_nullable len (column (0 ∷ 0 ∷ (le_bytes 2 n ++ text) ++ rest) v null)
        ≡ some (column rest (le_bytes 2 n ++ text) (0 ∷ 0 ∷ [])))
      × (copy_column_varchar_nullable len (column (255 ∷ 255 ∷ rest) v null)
          ≡ some (column rest v (255 ∷ 255 ∷ [])))
copy_column_varchar_nullable_short len n text rest v null h k e = (held, gone)
  where
    held :
        copy_column_varchar_nullable len (column (0 ∷ 0 ∷ (le_bytes 2 n ++ text) ++ rest) v null)
        ≡ some (column rest (le_bytes 2 n ++ text) (0 ∷ 0 ∷ []))
    held =
        unfold copy_column_varchar_nullable in
        ap
          (unless_null (peaked_short (byte_reader_peak 2 (0 ∷ 0 ∷ (le_bytes 2 n ++ text) ++ rest)))
            len)
          (null_read 0 0 ((le_bytes 2 n ++ text) ++ rest) v null)
        ∙ ap
            (λ z. unless_null z len (some (column ((le_bytes 2 n ++ text) ++ rest) v (0 ∷ 0 ∷ []))))
            (ap peaked_short (peak_prefix 2 (0 ∷ 0 ∷ []) ((le_bytes 2 n ++ text) ++ rest) refl)
              ∙ (unfold peaked_short word_short le_value in refl))
        ∙ (unfold unless_null in notnull_short len n text rest v (0 ∷ 0 ∷ []) h k e)

    gone :
        copy_column_varchar_nullable len (column (255 ∷ 255 ∷ rest) v null)
        ≡ some (column rest v (255 ∷ 255 ∷ []))
    gone =
        unfold copy_column_varchar_nullable in
        ap (unless_null (peaked_short (byte_reader_peak 2 (255 ∷ 255 ∷ rest))) len)
          (null_read 255 255 rest v null)
        ∙ ap (λ z. unless_null z len (some (column rest v (255 ∷ 255 ∷ []))))
            (ap peaked_short (peak_prefix 2 (255 ∷ 255 ∷ []) rest refl)
              ∙ (unfold peaked_short word_short le_value in refl))
        ∙ (unfold unless_null in refl)
