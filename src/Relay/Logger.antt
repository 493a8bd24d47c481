-- ===== src/Relay/Logger.antt =====
-- The logger: logger.h and logger.cpp, its files and their rotation.
pub mod Rotation
use c_playground.Common.{
  ℕ, zero, suc, ◌+◌, ◌*◌, ◌<◌, ◌≤◌, Bool, true, false, Option, none, some, List, [], ◌∷◌, ◌++◌,
  ◌==◌, leb, ltb, if◌then◌else◌, length, take, c_string,
}

-- `files` is the length of `logfiles_`, `size` what `ftell` says of the open file, `opened` the places
-- of the files opened, the last one first, `tested` what `ftell` said at the tests, and `closed` the lengths of
-- the files closed, the last one first.
pub record Logger : Type 0 where
  pub i : ℕ
  pub filesize : ℕ
  pub files : ℕ
  pub open_file : Option ℕ
  pub size : ℕ
  pub count : ℕ
  pub opened : List ℕ
  pub tested : List ℕ
  pub closed : List ℕ

abbrev pub frequency : ℕ
frequency = 100

abbrev pub mb : ℕ
mb = 1024 * 1024

-- The constructor, in the bounds that `CreateLogger` asserts of N and MB.
unfoldable pub create_logger : (n megabytes : ℕ) → Logger
create_logger n megabytes = record {
  i = 0;
  filesize = megabytes * mb;
  files = n;
  open_file = none;
  size = 0;
  count = 0;
  opened = [];
  tested = [];
  closed = [];
}

-- The move constructor.
unfoldable pub move_logger : Logger → Logger
move_logger other = record other { filesize = other.i }

-- `Next` with no file open: the file at `i_` is opened, and emptied.
unfoldable pub open_next : Logger → Logger
open_next l = record l { open_file = some l.i; size = 0; opened = l.i ∷ l.opened }

-- `Next`
unfoldable pub next_file : Option ℕ → Logger → Logger
next_file none l = open_next l
next_file (some f) l = open_next (record l {
  i = if suc l.i == l.files then 0 else suc l.i;
  open_file = none;
  closed = l.size ∷ l.closed;
})

unfoldable pub next : Logger → Logger
next l = next_file l.open_file l

-- `fprintf`: what was read, up to its first NUL, is behind what the file held.
unfoldable pub print_log : List ℕ → Logger → Logger
print_log text l = record l { size = l.size + length (c_string text) }

-- `ftell`, and the test of what it says.
unfoldable pub test_size : Logger → Logger
test_size l =
    let told = record l { tested = l.size ∷ l.tested } in
    if ltb l.filesize l.size then next told else told

-- The count behind a write, and the test after every hundredth.
unfoldable pub check_size : Logger → Logger
check_size l =
    if leb frequency (suc l.count)
    then test_size (record l { count = 0 })
    else record l { count = suc l.count }

-- One turn of the loop of `Run`.
unfoldable pub write_log : List ℕ → Logger → Logger
write_log text l = check_size (print_log text l)

-- `Run` on what its reads give, one after the other.
unfoldable pub log_all : List (List ℕ) → Logger → Logger
log_all [] l = l
log_all (text ∷ texts) l = log_all texts (write_log text l)

unfoldable pub run_logger : List (List ℕ) → Logger → Logger
run_logger texts l = log_all texts (next l)
