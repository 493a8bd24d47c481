-- ===== src/Relay/Reader.antt =====
-- The relay's reader: `handle_message` of RemoteReader in notifier.cpp, and the pipe to the notifier.
pub mod Pipe
pub mod Missed
use c_playground.Common.{
  ℕ, zero, suc, ◌+◌, Bool, true, false, Option, none, some, List, [], ◌∷◌, ◌++◌, ltb, if◌then◌else◌,
  length, take, drop,
}
use c_playground.Relay.Codec.{Data, Output, retrieve_topic, load}
use c_playground.Relay.Secure.{decrypt, data_bytes, bytes_data}

-- What becomes of a frame: the peer is kicked out, or the pipe goes on.
pub data Handled : Type 0 where
  kicked : Handled
  piped : List ℕ → Handled

-- The record of a frame that was decrypted, at its place in memory.
unfoldable pub handle_record : (filter : List ℕ → Bool) (pipe : List ℕ) → Option (List ℕ) → Handled
handle_record filter pipe none = kicked
handle_record filter pipe (some x) =
    if filter (retrieve_topic (bytes_data x).b)
    then if ltb (length pipe) 128 then piped (pipe ++ x) else piped pipe
    else piped pipe

unfoldable pub handle_message : (filter : List ℕ → Bool) (pipe buf : List ℕ) → Handled
handle_message filter pipe buf = handle_record filter pipe (decrypt 12 buf)

-- read(fd, &x, sizeof(x)) in `Notifier::Run`: the record, and the pipe behind it.
unfoldable pub read_record : List ℕ → Data × List ℕ
read_record pipe = (bytes_data (take 12 pipe), drop 12 pipe)
