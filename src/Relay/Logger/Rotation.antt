-- ===== src/Relay/Logger/Rotation.antt =====
-- How long a log file gets, and which file follows which.
use c_playground.Common.{
  ℕ, zero, suc, ◌+◌, ◌*◌, ◌<◌, ◌≤◌, ◌≡◌, refl, ap, sym, true, false, Option, none, some, List, [],
  ◌∷◌, ◌==◌, leb, ltb, if◌then◌else◌, if_intro, length, c_string, All, arith,
}
use mathlib.Core.Path.{subst}
use native.Mathlib.Nat.{suc-mul}
use c_playground.Relay.Logger.{
  Logger, frequency, mb, create_logger, open_next, next_file, next, print_log, test_size,
  check_size, write_log, log_all, run_logger,
}

-- The file behind `f`, of `n`.
abbrev pub file_behind : ℕ → ℕ → ℕ
file_behind n f = if suc f == n then 0 else suc f

-- The files opened, the last one first: the first is file 0, and each other the one behind its forerunner.
abbrev pub IsCycle : ℕ → List ℕ → Type 0
IsCycle n [] = ⊥
IsCycle n (f ∷ []) = f ≡ 0
IsCycle n (g ∷ (f ∷ fs)) = (g ≡ file_behind n f) × IsCycle n (f ∷ fs)

abbrev newest : List ℕ → Option ℕ
newest [] = none
newest (f ∷ fs) = some f

-- A log in order, when every read has at most `bl` bytes: the open file is the newest, the one at `i`, and is longer
-- than `filesize` by the writes since the last test at most; at the tests no file was longer than by a hundred, and
-- a file that was closed was longer than `filesize`.
record IsLog (bl n limit : ℕ) (l : Logger) : Type 0 where
  in_files : l.i < n
  same_files : l.files ≡ n
  same_limit : l.filesize ≡ limit
  counted : l.count < frequency
  is_open : l.open_file ≡ some l.i
  at_newest : newest l.opened ≡ some l.i
  cycles : IsCycle n l.opened
  bounded : l.size ≤ limit + l.count * bl
  at_tests : All (λ s. s ≤ limit + frequency * bl) l.tested
  at_ends : All (λ s. (limit < s) × (s ≤ limit + frequency * bl)) l.closed

length-c_string : (s : List ℕ) → length (c_string s) ≤ length s
length-c_string [] = omega arith
length-c_string (zero ∷ s) = omega arith
length-c_string (suc b ∷ s) = omega (arith, length-c_string s)

file_behind_bound : (n f : ℕ) → f < n → file_behind n f < n
file_behind_bound n f h = ground arith

file_behind-IsCycle :
    (n f : ℕ) (fs : List ℕ) → newest fs ≡ some f → IsCycle n fs → IsCycle n (file_behind n f ∷ fs)
file_behind-IsCycle n f [] e h = absurd h
file_behind-IsCycle n f (g ∷ fs) e h = (ap (file_behind n) (ground (arith, e)), h)

module _ (bl n limit : ℕ) where
  next-IsLog :
      (l : Logger)
      → l.i < n
      → l.files ≡ n
      → l.filesize ≡ limit
      → l.count < frequency
      → l.open_file ≡ some l.i
      → newest l.opened ≡ some l.i
      → IsCycle n l.opened
      → All (λ s. s ≤ limit + frequency * bl) l.tested
      → All (λ s. (limit < s) × (s ≤ limit + frequency * bl)) (l.size ∷ l.closed)
      → IsLog bl n limit (next l)
  unfolding next next_file open_next
  next-IsLog l h f z k o e c ts cs =
      let behind = ap (λ m. file_behind m l.i) f in
      subst (λ x. IsLog bl n limit (next_file x l)) (sym o)
        (record {
          in_files = subst (λ x. x < n) (sym behind) (file_behind_bound n l.i h);
          same_files = f;
          same_limit = z;
          counted = k;
          is_open = refl;
          at_newest = refl;
          cycles =
              subst (λ x. IsCycle n (x ∷ l.opened)) (sym behind)
                (file_behind-IsCycle n l.i l.opened e c);
          bounded = omega arith;
          at_tests = ts;
          at_ends = cs;
        })

  test_size-IsLog :
      (l : Logger)
      → IsLog bl n limit l
      → (size : ℕ) → size ≤ limit + frequency * bl
      → IsLog bl n limit (test_size (record l { size = size; count = 0 }))
  unfolding test_size
  test_size-IsLog l g size b =
      if_intro (IsLog bl n limit) (ltb l.filesize size)
        (λ s.
          next-IsLog (record l { size = size; count = 0; tested = size ∷ l.tested }) g.in_files
            g.same_files g.same_limit (omega arith) g.is_open g.at_newest g.cycles (b, g.at_tests)
            ((beyond l.filesize size g.same_limit s, b), g.at_ends))
        (λ s. record {
          in_files = g.in_files;
          same_files = g.same_files;
          same_limit = g.same_limit;
          counted = omega arith;
          is_open = g.is_open;
          at_newest = g.at_newest;
          cycles = g.cycles;
          bounded = within l.filesize size g.same_limit s;
          at_tests = (b, g.at_tests);
          at_ends = g.at_ends;
        })
    where
      within : (a b : ℕ) → a ≡ limit → ltb a b ≡ false → b ≤ limit + 0 * bl
      within a b e h = ground arith

      beyond : (a b : ℕ) → a ≡ limit → ltb a b ≡ true → limit < b
      beyond a b e h = ground arith

  check_size-IsLog :
      (l : Logger)
      → IsLog bl n limit l
      → (size : ℕ) → size ≤ limit + suc l.count * bl
      → IsLog bl n limit (check_size (record l { size = size }))
  unfolding check_size
  check_size-IsLog l g size b =
      if_intro (IsLog bl n limit) (leb frequency (suc l.count))
        (λ c. test_size-IsLog l g size (hundred l.count c g.counted b))
        (λ c. record {
          in_files = g.in_files;
          same_files = g.same_files;
          same_limit = g.same_limit;
          counted = few l.count c;
          is_open = g.is_open;
          at_newest = g.at_newest;
          cycles = g.cycles;
          bounded = b;
          at_tests = g.at_tests;
          at_ends = g.at_ends;
        })
    where
      few : (k : ℕ) → leb frequency (suc k) ≡ false → suc k < frequency
      few k h = ground arith

      full : (k : ℕ) → leb frequency (suc k) ≡ true → k < frequency → suc k ≡ frequency
      full k h g = ground arith

      hundred :
          (k : ℕ)
          → leb frequency (suc k) ≡ true
          → k < frequency
          → size ≤ limit + suc k * bl
          → size ≤ limit + frequency * bl
      hundred k h g b = subst (λ x. size ≤ limit + x * bl) (full k h g) b

  log_all-IsLog :
      (texts : List (List ℕ)) (l : Logger)
      → All (λ t. length t ≤ bl) texts
      → IsLog bl n limit l
      → IsLog bl n limit (log_all texts l)
  unfolding log_all write_log print_log
  log_all-IsLog [] l h g = g
  log_all-IsLog (t ∷ ts) l h g =
      log_all-IsLog ts (write_log t l) h.1
        (check_size-IsLog l g (l.size + length (c_string t)) (longer t l h.0 g.bounded))
    where
      longer :
          (t : List ℕ) (l : Logger)
          → length t ≤ bl
          → l.size ≤ limit + l.count * bl
          → l.size + length (c_string t) ≤ limit + suc l.count * bl
      longer t l h b = omega (arith, suc-mul l.count bl, length-c_string t)

-- A logger of one file or more, whose reads have at most 1024 bytes each, whatever it has logged: between
-- two turns its open file is at most 99 reads longer than the limit it was created with, at each
-- test, which follows the hundredth write, the file was at most 100 reads longer than the limit, and
-- each file that was closed was longer than the limit when it was closed, by at most 100 reads; the files were
-- opened from the first on, each the one behind its forerunner, the first again behind the last.
pub run_logger-IsCycle :
    (n megabytes : ℕ) (texts : List (List ℕ))
    → 1 ≤ n
    → All (λ t. length t ≤ 1024) texts
    → let l = run_logger texts (create_logger n megabytes) in
      (l.size ≤ megabytes * mb + 99 * 1024)
      × All (λ s. s ≤ megabytes * mb + 100 * 1024) l.tested
      × All (λ s. (megabytes * mb < s) × (s ≤ megabytes * mb + 100 * 1024)) l.closed
      × IsCycle n l.opened
unfolding run_logger next next_file open_next create_logger
run_logger-IsCycle n megabytes texts h k =
    let first : Logger = next (create_logger n megabytes) in
    let g = log_all-IsLog 1024 n (megabytes * mb) texts first k (record {
      in_files = omega arith;
      same_files = refl;
      same_limit = refl;
      counted = omega arith;
      is_open = refl;
      at_newest = refl;
      cycles = refl;
      bounded = omega arith;
      at_tests = tt;
      at_ends = tt;
    }) in
    (omega (arith, g.bounded, g.counted), g.at_tests, g.at_ends, g.cycles)
