-- ===== src/Monitor/Listener/Pairing.antt =====
-- The count of operations: a response is counted when a request came before it, and once.
use c_playground.Common.{
  ℕ, ◌+◌, ◌<◌, ◌≡◌, refl, ap, ◌∙◌, arith, List, [], ◌∷◌, ◌++◌, All, true, Bool, le→ltb, lt→ltb,
}
use c_playground.Common.Int.{ℤ}
use c_playground.Monitor.Message.{MsgRaw, MsgRequest, msg_response, accepted}
use c_playground.Monitor.Listener.{Listener, op_mask, count_op, write_all, on_request}

abbrev noted : MsgRaw → Listener → Listener
noted m s = record s { written = s.written ++ m ∷ [] }

abbrev counted : ℕ → Listener → Listener
counted n s = record s { metrics = record s.metrics { ops = n } }

write_all_response :
    (ok : ℕ → Bool) (i : ℕ) (m : MsgRaw) (ms : List MsgRaw) (s : Listener)
    → ok i ≡ true
    → m.type ≡ msg_response
    → write_all ok i (m ∷ ms) s ≡ write_all ok (i + 1) ms (count_op msg_response (noted m s))
write_all_response ok i m ms s e t =
    unfold write_all in rw e (ap (λ y. write_all ok (i + 1) ms (count_op y (noted m s))) t)

-- Without a request before them, responses are written but not counted.
pub write_all_unasked :
    (ok : ℕ → Bool) (i : ℕ) (ms : List MsgRaw) (s : Listener)
    → ((j : ℕ) → ok j ≡ true)
    → All (λ m. m.type ≡ msg_response) ms
    → s.metrics.ops < op_mask
    → (write_all ok i ms s).metrics.ops ≡ s.metrics.ops
write_all_unasked ok i [] s h r l = unfold write_all in refl
write_all_unasked ok i (m ∷ ms) s h r l =
    ap (λ t. t.metrics.ops) (write_all_response ok i m ms s (h i) r.0)
    ∙ write_all_unasked ok (i + 1) ms (count_op msg_response (noted m s)) h r.1 (rw same l)
    ∙ same
  where
    same : (count_op msg_response (noted m s)).metrics.ops ≡ s.metrics.ops
    same = unfold count_op in rw (lt→ltb s.metrics.ops op_mask l) refl

-- A request that was read counts one operation once its response is written, and further responses
-- without another request count none.
pub request-response_counted :
    (ok : ℕ → Bool) (now : ℤ) (req : MsgRequest) (rest : List ℕ) (m : MsgRaw) (ms : List MsgRaw)
    (s : Listener)
    → ((j : ℕ) → ok j ≡ true)
    → All (λ x. x.type ≡ msg_response) (m ∷ ms)
    → s.metrics.ops + 1 < op_mask
    → (write_all ok 0 (m ∷ ms) (on_request now (accepted req rest) s)).metrics.ops
      ≡ s.metrics.ops + 1
request-response_counted ok now req rest m ms s h r l =
    let t : Listener = on_request now (accepted req rest) s in
    ap (λ u. u.metrics.ops) (write_all_response ok 0 m ms t (h 0) r.0)
    ∙ write_all_unasked ok 1 ms (count_op msg_response (noted m t)) h r.1 (rw one l)
    ∙ one
  where
    marked : (on_request now (accepted req rest) s).metrics.ops ≡ s.metrics.ops + op_mask
    marked = unfold on_request in rw (lt→ltb s.metrics.ops op_mask (omega arith)) refl

    one :
        (count_op msg_response (noted m (on_request now (accepted req rest) s))).metrics.ops
        ≡ s.metrics.ops + 1
    one =
        unfold count_op in
        rw (marked, le→ltb (s.metrics.ops + op_mask) op_mask (omega arith)) (omega arith)
