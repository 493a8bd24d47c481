-- ===== src/Relay/Collector/Order.antt =====
-- The producer and the consumer thread in any order: which payloads are sent, and that none waits unseen.
use c_playground.Common.{
  ℕ, zero, suc, ◌≡◌, refl, ap, sym, ◌∙◌, Bool, true, false, List, [], ◌∷◌, ◌++◌, append_assoc,
  append-nil, ◌==◌, if◌then◌else◌, if_intro,
}
use mathlib.Core.Path.{subst}
use c_playground.Relay.Collector.{
  State, Consumer, testing, reading, swapping, sending, ended, Collector, push_payload, write_ready,
  write_quit, set_state, is_ready, is_done, read_byte, swap_payloads, send_payload, consume,
  new_collector, ready_char,
}

-- The payloads that the loop still has.
abbrev pub waiting : Consumer → List (List ℕ)
waiting (sending ps) = ps
waiting _ = []

-- The payload that the next step of the consumer takes, with whether it is sent.
abbrev pub taken_next : State → Consumer → List (Bool × List ℕ)
taken_next s (sending (p ∷ ps)) = (is_ready s, p) ∷ []
taken_next s _ = []

-- The states that the two threads and the connection's events reach, with the payloads added and those
-- that the consumer took, each with whether it was sent.
pub data Runs : List (List ℕ) → List (Bool × List ℕ) → Collector → Type 0 where
  starts : Runs [] [] new_collector
  pushes :
      (p : List ℕ) {a : List (List ℕ)} {t : List (Bool × List ℕ)} {c : Collector}
      → Runs a t c
      → Runs (a ++ (p ∷ [])) t (push_payload p c)
  signals :
      {a : List (List ℕ)} {t : List (Bool × List ℕ)} {c : Collector}
      → Runs a t c
      → Runs a t (write_ready c.unsignalled c)
  quits :
      {a : List (List ℕ)} {t : List (Bool × List ℕ)} {c : Collector}
      → Runs a t c
      → Runs a t (write_quit c)
  sets :
      (s : State) {a : List (List ℕ)} {t : List (Bool × List ℕ)} {c : Collector}
      → Runs a t c
      → Runs a t (set_state s c)
  consumes :
      {a : List (List ℕ)} {t : List (Bool × List ℕ)} {c : Collector}
      → Runs a t c
      → Runs a (t ++ taken_next c.state c.consumer) (consume c.consumer c)

abbrev pub payloads : List (Bool × List ℕ) → List (List ℕ)
payloads [] = []
payloads (x ∷ xs) = x.1 ∷ payloads xs

abbrev pub sent_of : List (Bool × List ℕ) → List (List ℕ)
sent_of [] = []
sent_of (x ∷ xs) = let rest = sent_of xs in if x.0 then x.1 ∷ rest else rest

payloads-append : (xs ys : List (Bool × List ℕ)) → payloads (xs ++ ys) ≡ payloads xs ++ payloads ys
payloads-append [] ys = refl
payloads-append (x ∷ xs) ys = ap (λ r. x.1 ∷ r) (payloads-append xs ys)

sent_of-append : (xs ys : List (Bool × List ℕ)) → sent_of (xs ++ ys) ≡ sent_of xs ++ sent_of ys
sent_of-append [] ys = refl
sent_of-append ((true, p) ∷ xs) ys = ap (λ r. p ∷ r) (sent_of-append xs ys)
sent_of-append ((false, p) ∷ xs) ys = sent_of-append xs ys

abbrev IsOrdered : List (List ℕ) → List (Bool × List ℕ) → Collector → Type 0
IsOrdered a t c = (payloads t ++ (waiting c.consumer ++ c.pv) ≡ a) × (c.sent ≡ sent_of t)

none_taken :
    (a : List (List ℕ)) (t : List (Bool × List ℕ)) (c : Collector)
    → IsOrdered a t c
    → IsOrdered a (t ++ []) c
none_taken a t c h = subst (λ x. IsOrdered a x c) (sym (append-nil t)) h

write_ready-IsOrdered :
    (n : ℕ) (a : List (List ℕ)) (t : List (Bool × List ℕ)) (c : Collector)
    → IsOrdered a t c
    → IsOrdered a t (write_ready n c)
unfolding write_ready
write_ready-IsOrdered zero a t c h = h
write_ready-IsOrdered (suc n) a t c h = h

module _ (a : List (List ℕ)) (t : List (Bool × List ℕ)) (c : Collector) where
  read_byte-IsOrdered :
      (bytes : List ℕ) → c.consumer ≡ reading → IsOrdered a t c → IsOrdered a t (read_byte bytes c)
  unfolding read_byte
  read_byte-IsOrdered [] e h = h
  read_byte-IsOrdered (b ∷ bytes) e h =
      let k : payloads t ++ c.pv ≡ a = ap (λ x. payloads t ++ (waiting x ++ c.pv)) (sym e) ∙ h.0 in
      if_intro (λ (x : Consumer). (payloads t ++ (waiting x ++ c.pv) ≡ a) × (c.sent ≡ sent_of t))
        (b == ready_char) (λ _. (k, h.1)) (λ _. (k, h.1))

  swap_payloads-IsOrdered :
      (pv : List (List ℕ))
      → c.pv ≡ pv
      → payloads t ++ pv ≡ a
      → c.sent ≡ sent_of t
      → IsOrdered a t (swap_payloads pv c)
  unfolding swap_payloads
  swap_payloads-IsOrdered [] e k l = (ap (λ x. payloads t ++ x) e ∙ k, l)
  swap_payloads-IsOrdered (p ∷ ps) e k l = (ap (λ x. payloads t ++ x) (append-nil (p ∷ ps)) ∙ k, l)

  sent_next :
      (b : Bool) (p : List ℕ)
      → c.sent ≡ sent_of t
      → (if b then c.sent ++ (p ∷ []) else c.sent) ≡ sent_of (t ++ ((b, p) ∷ []))
  sent_next true p h = ap (λ s. s ++ (p ∷ [])) h ∙ sym (sent_of-append t ((true, p) ∷ []))
  sent_next false p h = h ∙ sym (append-nil (sent_of t)) ∙ sym (sent_of-append t ((false, p) ∷ []))

  consume-IsOrdered :
      (k : Consumer)
      → c.consumer ≡ k
      → IsOrdered a t c
      → IsOrdered a (t ++ taken_next c.state k) (consume k c)
  unfolding consume send_payload
  consume-IsOrdered testing e h =
      let k : payloads t ++ c.pv ≡ a = ap (λ x. payloads t ++ (waiting x ++ c.pv)) (sym e) ∙ h.0 in
      none_taken a t (consume testing c) (
        if_intro (λ (x : Consumer). (payloads t ++ (waiting x ++ c.pv) ≡ a) × (c.sent ≡ sent_of t))
          (is_done c.state) (λ _. (k, h.1)) (λ _. (k, h.1)))
  consume-IsOrdered reading e h =
      none_taken a t (consume reading c) (read_byte-IsOrdered c.channel e h)
  consume-IsOrdered swapping e h = none_taken a t (consume swapping c) (
      swap_payloads-IsOrdered c.pv refl (ap (λ x. payloads t ++ (waiting x ++ c.pv)) (sym e) ∙ h.0)
        h.1)
  consume-IsOrdered (sending []) e h =
      none_taken a t (consume (sending []) c)
        (ap (λ x. payloads t ++ (waiting x ++ c.pv)) (sym e) ∙ h.0, h.1)
  consume-IsOrdered (sending (p ∷ ps)) e h = (
    ap (λ x. x ++ (ps ++ c.pv)) (payloads-append t ((is_ready c.state, p) ∷ []))
        ∙ append_assoc (payloads t) (p ∷ []) (ps ++ c.pv)
        ∙ ap (λ x. payloads t ++ (waiting x ++ c.pv)) (sym e)
        ∙ h.0,
    sent_next (is_ready c.state) p h.1,
  )
  consume-IsOrdered ended e h = none_taken a t c h

-- However the threads and the connection interleave, the payloads that the consumer took, those it
-- still has and those it has not seen are the added ones, in the order they were added; and the sent
-- ones are those taken while the connection was ready, in that order.
pub Runs-IsOrdered :
    (a : List (List ℕ)) (t : List (Bool × List ℕ)) (c : Collector)
    → Runs a t c
    → (payloads t ++ (waiting c.consumer ++ c.pv) ≡ a) × (c.sent ≡ sent_of t)
unfolding push_payload write_quit set_state
Runs-IsOrdered a t c starts = (refl, refl)
Runs-IsOrdered a t c (pushes p {a = b} {c = d} r) =
    let h = Runs-IsOrdered b t d r in
    (
      ap (λ x. payloads t ++ x) (sym (append_assoc (waiting d.consumer) d.pv (p ∷ [])))
          ∙ sym (append_assoc (payloads t) (waiting d.consumer ++ d.pv) (p ∷ []))
          ∙ ap (λ x. x ++ (p ∷ [])) h.0,
      h.1,
    )
Runs-IsOrdered a t c (signals {c = d} r) =
    write_ready-IsOrdered d.unsignalled a t d (Runs-IsOrdered a t d r)
Runs-IsOrdered a t c (quits {c = d} r) = Runs-IsOrdered a t d r
Runs-IsOrdered a t c (sets s {c = d} r) = Runs-IsOrdered a t d r
Runs-IsOrdered a t c (consumes {t = u} {c = d} r) =
    consume-IsOrdered a u d d.consumer refl (Runs-IsOrdered a u d r)
