-- ===== src/Monitor/Listener/Sound.antt =====
-- The listener is idle without a peer or at work with one, as long as no peer connects while it works.
use c_playground.Common.{
  ℕ, zero, suc, ◌+◌, ◌≡◌, refl, ◌∙◌, arith, List, [], ◌∷◌, ◌++◌, none, some, Bool, true, false,
  Bool-cases, inl, inr, ◌⊎◌, ◌&&◌,
}
use c_playground.Common.Int.{ℤ, pos, negsuc}
use c_playground.Monitor.Message.{
  Unpacked, accepted, refused, undefined, MsgRequest, MsgHeartbeat, MsgRaw, read_raw, msg_nothing,
  unpack_request, unpack_heartbeat,
}
use c_playground.Monitor.Listener.{
  idle, work, is_work, Listener, Doubles, Poll, publish, on_unpack_error, on_disconnect, on_request,
  on_pong_message, on_message, on_read, reader_read, count_op, write_all, call_all, read_peer,
}

-- Idle without a peer, or at work with one.
pub data IsSound (s : Listener) : Type 0 where
  resting : s.state ≡ idle → s.peerfd ≡ none → IsSound s
  serving : (fd : ℕ) → s.state ≡ work → s.peerfd ≡ some fd → IsSound s

abbrev pub Same : Listener → Listener → Type 0
Same s t = (t.state ≡ s.state) × (t.peerfd ≡ s.peerfd)

Same-IsSound : (s t : Listener) → Same s t → IsSound s → IsSound t
Same-IsSound s t h (resting i n) = resting (h.0 ∙ i) (h.1 ∙ n)
Same-IsSound s t h (serving fd w p) = serving fd (h.0 ∙ w) (h.1 ∙ p)

on_disconnect-IsSound : (s : Listener) → IsSound (on_disconnect s)
on_disconnect-IsSound s = unfold on_disconnect in resting refl refl

-- Either as before or idle without a peer.
pub data Follows (s t : Listener) : Type 0 where
  same : Same s t → Follows s t
  gone : t.state ≡ idle → t.peerfd ≡ none → Follows s t

pub Follows-IsSound : (s t : Listener) → Follows s t → IsSound s → IsSound t
Follows-IsSound s t (same h) v = Same-IsSound s t h v
Follows-IsSound s t (gone i n) v = resting i n

pub Follows-trans : (s t u : Listener) → Follows s t → Follows t u → Follows s u
Follows-trans s t u (same h) (same k) = same (k.0 ∙ h.0, k.1 ∙ h.1)
Follows-trans s t u (gone i n) (same k) = gone (k.0 ∙ i) (k.1 ∙ n)
Follows-trans s t u f (gone i n) = gone i n

pub on_disconnect-Follows : (s t : Listener) → Follows s (on_disconnect t)
on_disconnect-Follows s t = unfold on_disconnect in gone refl refl

on_request-Same : (now : ℤ) (u : Unpacked MsgRequest) (s : Listener) → Same s (on_request now u s)
on_request-Same now (accepted m rest) s = unfold on_request in (refl, refl)
on_request-Same now (refused m rest) s = unfold on_request on_unpack_error publish in (refl, refl)
on_request-Same now undefined s = unfold on_request in (refl, refl)

on_pong_message-Same :
    (d : Doubles) (now : ℤ) (u : Unpacked MsgHeartbeat) (s : Listener)
    → Same s (on_pong_message d now u s)
on_pong_message-Same d now (accepted m rest) s = unfold on_pong_message in (refl, refl)
on_pong_message-Same d now (refused m rest) s =
    unfold on_pong_message on_unpack_error publish in (refl, refl)
on_pong_message-Same d now undefined s = unfold on_pong_message in (refl, refl)

on_message-Same :
    (d : Doubles) (now type : ℤ) (p : List ℕ) (s : Listener) → Same s (on_message d now type p s)
on_message-Same d now (negsuc n) p s = unfold on_message in (refl, refl)
on_message-Same d now (pos zero) p s = unfold on_message in (refl, refl)
on_message-Same d now (pos (suc zero)) p s =
    unfold on_message in on_request-Same now (unpack_request s.msgreq p) s
on_message-Same d now (pos (suc (suc zero))) p s = unfold on_message in (refl, refl)
on_message-Same d now (pos (suc (suc (suc zero)))) p s = unfold on_message in (refl, refl)
on_message-Same d now (pos (suc (suc (suc (suc zero))))) p s =
    unfold on_message in on_pong_message-Same d now (unpack_heartbeat s.msght p) s
on_message-Same d now (pos (suc (suc (suc (suc (suc n)))))) p s = unfold on_message in (refl, refl)

on_read-Follows :
    (d : Doubles) (now : ℤ) (r : Bool × (MsgRaw × List ℕ)) (s : Listener)
    → Follows s (on_read d now r s)
on_read-Follows d now (true, (m, rest)) s =
    unfold on_read in same (on_message-Same d now m.type m.payload s)
on_read-Follows d now (false, (m, rest)) s = unfold on_read in on_disconnect-Follows s s

pub read_peer-Follows : (p : Poll) (s : Listener) → Follows s (read_peer p s)
read_peer-Follows p s = elim (Bool-cases (is_work s.state && p.peer_in)) [
  | inl e ↦
      unfold read_peer reader_read in
      rw e (
        on_read-Follows p.doubles p.now
          (read_raw (record { type = msg_nothing; payload = [] }) p.stream) s)
  | inr e ↦ unfold read_peer in rw e (same (refl, refl))
]

count_op-Same : (type : ℤ) (s : Listener) → Same s (count_op type s)
count_op-Same (negsuc n) s = unfold count_op in (refl, refl)
count_op-Same (pos zero) s = unfold count_op in (refl, refl)
count_op-Same (pos (suc zero)) s = unfold count_op in (refl, refl)
count_op-Same (pos (suc (suc zero))) s = unfold count_op in ground arith
count_op-Same (pos (suc (suc (suc n)))) s = unfold count_op in (refl, refl)

pub write_all-Follows :
    (ok : ℕ → Bool) (i : ℕ) (ms : List MsgRaw) (s : Listener) → Follows s (write_all ok i ms s)
write_all-Follows ok i [] s = unfold write_all in same (refl, refl)
write_all-Follows ok i (m ∷ ms) s =
    next (write_all-Follows ok (i + 1) ms (counted s)) (Bool-cases (ok i))
  where
    counted : Listener → Listener
    counted s = count_op m.type (record s { written = s.written ++ m ∷ [] })

    next :
        Follows (counted s) (write_all ok (i + 1) ms (counted s))
        → (ok i ≡ true) ⊎ (ok i ≡ false)
        → Follows s (write_all ok i (m ∷ ms) s)
    next f (inl e) =
        unfold write_all in
        rw e (
          Follows-trans s (counted s) _
            (same (count_op-Same m.type (record s { written = s.written ++ m ∷ [] }))) f)
    next f (inr e) = unfold write_all in rw e (on_disconnect-Follows s s)

-- A closure leaves the state and the peer alone.
abbrev pub IsQuiet : (ℕ → Listener → Listener) → Type 0
IsQuiet call = (c : ℕ) (s : Listener) → Same s (call c s)

pub call_all-Follows :
    (call : ℕ → Listener → Listener) (cs : List ℕ) (s : Listener)
    → IsQuiet call
    → Follows s (call_all call cs s)
unfolding call_all
call_all-Follows call [] s q = same (refl, refl)
call_all-Follows call (c ∷ cs) s q =
    let t : Listener = call c (record s { ran = c ∷ s.ran }) in
    Follows-trans s t (call_all call cs t) (same (q c (record s { ran = c ∷ s.ran })))
      (call_all-Follows call cs t q)
