-- ===== src/Relay/Reader/Pipe.antt =====
-- The pipe between the reader and the notifier, frames and reads in any order.
use c_playground.Common.{
  ℕ, zero, suc, ◌+◌, ◌*◌, ◌<◌, ◌≤◌, ◌≡◌, refl, ap, sym, ◌∙◌, Bool, true, Option, none, some, List,
  [], ◌∷◌, ◌++◌, append_assoc, ltb, ltb→lt, lt→ltb, append-nil, ap₂, if_intro, length,
  length-append, take, drop, length-drop, ◌-◌, take-length_append, drop-length_append, arith, All,
}
use c_playground.Common.Words.{le_bytes, length-le_bytes}
use mathlib.Core.Path.{subst}
use c_playground.Relay.Codec.{Data, retrieve_topic}
use c_playground.Relay.Secure.{decrypt, encrypt, data_bytes, bytes_data}
use c_playground.Relay.Secure.RoundTrip.{
  length-decrypt, IsData, decrypt-encrypt, bytes_data-data_bytes,
}
use c_playground.Relay.Reader.{Handled, kicked, piped, handle_record, handle_message, read_record}

-- The pipe after frames from any peers, under any filters, and reads, as `poll` lets them.
pub data Pipes : List ℕ → Type 0 where
  opens : Pipes []
  handles :
      (filter : List ℕ → Bool) (buf pipe : List ℕ) {next : List ℕ}
      → handle_message filter pipe buf ≡ piped next
      → Pipes pipe
      → Pipes next
  reads : (pipe : List ℕ) → 1 ≤ length pipe → Pipes pipe → Pipes (read_record pipe).1

-- At most eleven whole records.
abbrev pub IsAligned : List ℕ → Type 0
IsAligned pipe = (k : ℕ) × ((length pipe ≡ 12 * k) × (k ≤ 11))

abbrev PipeIsAligned : Handled → Type 0
PipeIsAligned kicked = Unit
PipeIsAligned (piped pipe) = IsAligned pipe

handle_record-IsAligned :
    (filter : List ℕ → Bool) (pipe : List ℕ) (o : Option (List ℕ))
    → ((x : List ℕ) → o ≡ some x → length x ≡ 12)
    → IsAligned pipe
    → PipeIsAligned (handle_record filter pipe o)
unfolding handle_record
handle_record-IsAligned filter pipe none f h = tt
handle_record-IsAligned filter pipe (some x) f (k, (e, l)) =
    if_intro PipeIsAligned (filter (retrieve_topic (bytes_data x).b))
      (λ _.
        if_intro PipeIsAligned (ltb (length pipe) 128)
          (λ b. (
            suc k,
            (
              omega (arith, length-append pipe x, f x refl),
              omega (arith, ltb→lt (length pipe) 128 b),
            ),
          ))
          (λ _. (k, (e, l))))
      (λ _. (k, (e, l)))

-- At any time the pipe holds whole records, and at most eleven of them: 132 bytes.
pub Pipes-IsAligned : (pipe : List ℕ) → Pipes pipe → IsAligned pipe
unfolding handle_message read_record
Pipes-IsAligned pipe opens = (0, (omega arith, omega arith))
Pipes-IsAligned pipe (handles filter buf p e r) =
    subst PipeIsAligned e
      (handle_record-IsAligned filter p (decrypt 12 buf) (length-decrypt buf) (Pipes-IsAligned p r))
Pipes-IsAligned pipe (reads p l r) =
    let (k, (e, b)) = Pipes-IsAligned p r in (k - 1, (omega (arith, length-drop 12 p), omega arith))

abbrev pub pipe_behind : List ℕ → Handled → List ℕ
pipe_behind pipe kicked = pipe
pipe_behind pipe (piped next) = next

-- Frames that the collector made, with their masks, arrive one after the other.
abbrev pub frames_arrive : (filter : List ℕ → Bool) → List (ℕ × Data) → List ℕ → List ℕ
frames_arrive filter [] pipe = pipe
frames_arrive filter (f ∷ fs) pipe =
    frames_arrive filter fs
      (pipe_behind pipe (handle_message filter pipe (encrypt f.0 (data_bytes f.1))))

-- The records that so many reads give.
abbrev pub read_all : ℕ → List ℕ → List Data
read_all zero pipe = []
read_all (suc n) pipe = (read_record pipe).0 ∷ read_all n (read_record pipe).1

abbrev pub records : List (ℕ × Data) → List Data
records [] = []
records (f ∷ fs) = f.1 ∷ records fs

abbrev record_bytes : List (ℕ × Data) → List ℕ
record_bytes [] = []
record_bytes (f ∷ fs) = data_bytes f.1 ++ record_bytes fs

-- Records of the fields' types, whose topics have consumers.
abbrev pub IsWanted : (filter : List ℕ → Bool) → ℕ × Data → Type 0
IsWanted filter f = IsData f.1 × (filter (retrieve_topic f.1.b) ≡ true)

length-data_bytes : (d : Data) → length (data_bytes d) ≡ 12
unfolding data_bytes
length-data_bytes d = omega (
  arith,
  length-append (le_bytes 4 d.a) (le_bytes 8 d.b),
  length-le_bytes 4 d.a,
  length-le_bytes 8 d.b,
)

module _ (filter : List ℕ → Bool) where
  pub handle_message-encrypt :
      (m : ℕ) (d : Data) (pipe : List ℕ)
      → IsWanted filter (m, d)
      → length pipe < 128
      → handle_message filter pipe (encrypt m (data_bytes d)) ≡ piped (pipe ++ data_bytes d)
  unfolding handle_message handle_record
  handle_message-encrypt m d pipe (h, w) l =
      ap (handle_record filter pipe) (decrypt-encrypt m d)
      ∙ rw (bytes_data-data_bytes d h, w, lt→ltb (length pipe) 128 l) refl

  frames_arrive-bytes :
      (fs : List (ℕ × Data)) (pipe : List ℕ)
      → All (IsWanted filter) fs
      → length pipe + 12 * length fs < 140
      → frames_arrive filter fs pipe ≡ pipe ++ record_bytes fs
  frames_arrive-bytes [] pipe h l = sym (append-nil pipe)
  frames_arrive-bytes (f ∷ fs) pipe h l =
      ap (λ x. frames_arrive filter fs (pipe_behind pipe x))
        (handle_message-encrypt f.0 f.1 pipe h.0 (omega arith))
      ∙ frames_arrive-bytes fs (pipe ++ data_bytes f.1) h.1
          (omega (arith, length-append pipe (data_bytes f.1), length-data_bytes f.1))
      ∙ append_assoc pipe (data_bytes f.1) (record_bytes fs)

  read_all-bytes :
      (fs : List (ℕ × Data))
      → All (IsWanted filter) fs
      → read_all (length fs) (record_bytes fs) ≡ records fs
  unfolding read_record
  read_all-bytes [] h = refl
  read_all-bytes (f ∷ fs) h =
      let rest = record_bytes fs in
      let twelve = length-data_bytes f.1 in
      ap₂ (λ x y. x ∷ y)
        (ap bytes_data (
            ap (λ n. take n (data_bytes f.1 ++ rest)) (sym twelve)
            ∙ take-length_append (data_bytes f.1) rest)
          ∙ bytes_data-data_bytes f.1 h.0.0)
        (ap (read_all (length fs)) (
            ap (λ n. drop n (data_bytes f.1 ++ rest)) (sym twelve)
            ∙ drop-length_append (data_bytes f.1) rest)
          ∙ read_all-bytes fs h.1)

  -- Up to eleven records that the collector encrypts, under any masks, and whose topics have consumers
  -- pass through the relay's pipe to the notifier's reads whole and in order.
  pub read_all-frames_arrive :
      (fs : List (ℕ × Data))
      → All (IsWanted filter) fs
      → length fs ≤ 11
      → read_all (length fs) (frames_arrive filter fs []) ≡ records fs
  read_all-frames_arrive fs h l =
      ap (read_all (length fs)) (frames_arrive-bytes fs [] h (omega arith)) ∙ read_all-bytes fs h
