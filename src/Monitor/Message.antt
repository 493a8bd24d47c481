-- ===== src/Monitor/Message.antt =====
-- socket/monitor/message.h and message.cpp: packing, unpacking, and messages on a stream.
-- An `int` is four bytes and a `double` eight, the lowest first; a `double` is known by its bits.
pub mod RoundTrip
pub mod Refusal
pub mod Frame
mod Tests
use c_playground.Common.{
  ℕ, zero, suc, ◌+◌, ◌-◌, ◌^◌, List, [], ◌∷◌, ◌++◌, Bool, true, false, length, take, drop,
  replicate, ltb, leb, ◌==◌, if◌then◌else◌,
}
use c_playground.Common.Int.{ℤ, pos, negsuc}
use c_playground.Common.Words.{le_bytes, le_value, int_word, word_int}

-- What an `unpack` into an object gives: whether it returns true, the object, and the bytes between the
-- cursor and the end; or a copy from a range that runs backwards.
pub data Unpacked {ℓ} (A : Type ℓ) : Type ℓ where
  accepted : A → List ℕ → Unpacked A
  refused : A → List ℕ → Unpacked A
  undefined : Unpacked A

-- `unpack<T>` of `n` bytes, into `t`.
unfoldable pub unpack_word : ℕ → ℕ → List ℕ → Unpacked ℕ
unfolding le_value
unpack_word n t s =
    if ltb (length s) n then refused t s else accepted (le_value (take n s)) (drop n s)

-- `unpack<int>`
unfoldable pub unpack_int : ℤ → List ℕ → Unpacked ℤ
unfolding le_value word_int
unpack_int t s =
    if ltb (length s) 4 then refused t s else accepted (word_int (le_value (take 4 s))) (drop 4 s)

-- From the length on: `extra` bytes follow the text, 1 for a string and 0 for a vector.
unfoldable pub unpack_sized : ℕ → List ℕ → Unpacked ℤ → Unpacked (List ℕ)
unpack_sized extra t undefined = undefined
unpack_sized extra t (refused l s) = refused t s
unpack_sized extra t (accepted (negsuc l) s) = undefined
unpack_sized extra t (accepted (pos zero) s) = accepted t s
unpack_sized extra t (accepted (pos (suc l)) s) =
    if ltb (length s) (suc l + extra)
    then refused t s
    else accepted (take (suc l) s) (drop (suc l + extra) s)

-- `unpack(std::string &)` and `unpack(std::vector<char> &)`
unfoldable pub unpack_string : List ℕ → List ℕ → Unpacked (List ℕ)
unfolding unpack_sized unpack_int
unpack_string t s = unpack_sized 1 t (unpack_int (pos 0) s)

unfoldable pub unpack_vector : List ℕ → List ℕ → Unpacked (List ℕ)
unfolding unpack_sized unpack_int
unpack_vector t s = unpack_sized 0 t (unpack_int (pos 0) s)

-- `pack<int>`, and `pack` of a string and of a vector, behind the bytes that the packer has.
unfoldable pub pack_int : List ℕ → ℤ → List ℕ
unfolding le_bytes int_word
pack_int w z = w ++ le_bytes 4 (int_word z)

unfoldable pub pack_string : List ℕ → List ℕ → List ℕ
unfolding pack_int
pack_string w [] = pack_int w (pos 0)
pack_string w (c ∷ s) = (pack_int w (pos (length (c ∷ s))) ++ c ∷ s) ++ 0 ∷ []

unfoldable pub pack_vector : List ℕ → List ℕ → List ℕ
unfolding pack_int
pack_vector w [] = pack_int w (pos 0)
pack_vector w (c ∷ s) = pack_int w (pos (length (c ∷ s))) ++ c ∷ s

pub record MsgRequest : Type 0 where
  pub op : ℤ
  pub arg : ℤ

pub record MsgResponse : Type 0 where
  pub r1 : List ℕ
  pub r2 : List ℕ

-- The timestamp is a `double`.
pub record MsgHeartbeat : Type 0 where
  pub timestamp : ℕ

pub record MsgCmd : Type 0 where
  pub op : ℤ
  pub arg : List ℕ

unfoldable pub pack_request : MsgRequest → List ℕ
unfolding pack_int
pack_request m = pack_int (pack_int [] m.op) m.arg

unfoldable pub pack_response : MsgResponse → List ℕ
unfolding pack_string pack_vector
pack_response m = pack_vector (pack_string [] m.r1) m.r2

unfoldable pub pack_heartbeat : MsgHeartbeat → List ℕ
unfolding le_bytes
pack_heartbeat m = le_bytes 8 m.timestamp

unfoldable pub pack_cmd : MsgCmd → List ℕ
unfolding pack_int pack_string
pack_cmd m = pack_string (pack_int [] m.op) m.arg

unfoldable pub map_unpacked : {A B : Type 0} → (A → B) → Unpacked A → Unpacked B
map_unpacked f undefined = undefined
map_unpacked f (refused a s) = refused (f a) s
map_unpacked f (accepted a s) = accepted (f a) s

-- `r->unpack(a) && r->unpack(b)` on two members: the value is what the first did, `next` the second,
-- which holds `b` before, and `put` sets the members.
unfoldable pub and_then :
    {A B M : Type 0} → (A → B → M) → B → Unpacked A → (List ℕ → Unpacked B) → Unpacked M
unfolding map_unpacked
and_then put b undefined next = undefined
and_then put b (refused a s) next = refused (put a b) s
and_then put b (accepted a s) next = map_unpacked (put a) (next s)

abbrev pub request : ℤ → ℤ → MsgRequest
request op arg = record { op = op; arg = arg }

abbrev pub response : List ℕ → List ℕ → MsgResponse
response r1 r2 = record { r1 = r1; r2 = r2 }

-- The `unpack` members, into the message `m`.
unfoldable pub unpack_request : MsgRequest → List ℕ → Unpacked MsgRequest
unfolding and_then unpack_int
unpack_request m s = and_then request m.arg (unpack_int m.op s) (unpack_int m.arg)

unfoldable pub unpack_response : MsgResponse → List ℕ → Unpacked MsgResponse
unfolding and_then unpack_string unpack_vector
unpack_response m s = and_then response m.r2 (unpack_string m.r1 s) (unpack_vector m.r2)

unfoldable pub unpack_heartbeat : MsgHeartbeat → List ℕ → Unpacked MsgHeartbeat
unfolding unpack_word map_unpacked
unpack_heartbeat m s = map_unpacked (λ t. record { timestamp = t }) (unpack_word 8 m.timestamp s)

-- `unpack(data, end, l)` sets `l` to the bytes taken, where it returns true.
unfoldable pub taken : {A : Type 0} → List ℕ → Unpacked A → ℕ
taken s (accepted a rest) = length s - length rest
taken s (refused a rest) = 0
taken s undefined = 0

pub record MsgRaw : Type 0 where
  pub type : ℤ
  pub payload : List ℕ

-- `MsgRaw::write`; the kernel takes `sent` bytes of the two parts.
unfoldable pub write_raw : MsgRaw → ℕ → Bool × List ℕ
unfolding pack_int
write_raw m sent =
    let bytes : List ℕ = pack_int (pack_int [] m.type) (pos (length m.payload)) ++ m.payload in
    (sent == length bytes, take sent bytes)

-- `payload.resize(l)`
unfoldable pub resize : ℕ → List ℕ → List ℕ
resize l p = take l (p ++ replicate l 0)

-- `payload.resize(l)` and `recv` of `l` bytes over it; `stream` is what arrives before the end.
unfoldable pub receive_payload : MsgRaw → ℤ → List ℕ → Bool × (MsgRaw × List ℕ)
unfolding resize
receive_payload m (negsuc l) stream = (true, (m, stream))
receive_payload m (pos zero) stream = (true, (m, stream))
receive_payload m (pos (suc l)) stream =
    if ltb (length stream) (suc l)
    then (
      false,
      (record m { payload = stream ++ drop (length stream) (resize (suc l) m.payload) }, []),
    )
    else (true, (record m { payload = take (suc l) stream }, drop (suc l) stream))

-- `MsgRaw::read`; `recv` waits for all of its bytes or the end of the stream.
unfoldable pub read_raw : MsgRaw → List ℕ → Bool × (MsgRaw × List ℕ)
unfolding receive_payload le_value word_int
read_raw m stream =
    if ltb (length stream) 8
    then (false, (m, []))
    else receive_payload (record m { type = word_int (le_value (take 4 stream)) })
        (word_int (le_value (take 4 (drop 4 stream)))) (drop 8 stream)

-- `enum MsgType`
abbrev pub msg_nothing : ℤ
msg_nothing = pos 0

abbrev pub msg_request : ℤ
msg_request = pos 1

abbrev pub msg_response : ℤ
msg_response = pos 2

abbrev pub msg_ping : ℤ
msg_ping = pos 3

abbrev pub msg_pong : ℤ
msg_pong = pos 4

abbrev pub msg_cmd : ℤ
msg_cmd = pos 5
