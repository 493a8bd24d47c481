-- ===== src/Relay/Collector/Wakeup.antt =====
-- A consumer that waits at its read has a byte to read when a payload is there for it.
use c_playground.Common.{
  ℕ, zero, suc, ◌+◌, ◌≤◌, ◌≡◌, refl, ap, Bool, List, [], ◌∷◌, ◌++◌, ◌==◌, if◌then◌else◌, if_intro,
  Bool-cases, inl, inr, length, length-append, arith, codes,
}
use c_playground.Relay.Collector.{
  Consumer, testing, reading, swapping, sending, ended, Collector, push_payload, write_ready,
  write_quit, set_state, is_done, read_byte, swap_payloads, send_payload, consume, ready_char,
}
use c_playground.Relay.Collector.Order.{Runs, starts, pushes, signals, quits, sets, consumes}

-- The bytes 'R' in the channel.
abbrev pub readies : List ℕ → ℕ
readies [] = 0
readies (b ∷ bytes) = let rest = readies bytes in if b == ready_char then suc rest else rest

-- The byte that brought the consumer to the swap.
abbrev pub in_hand : Consumer → ℕ
in_hand swapping = 1
in_hand _ = 0

readies-append : (xs ys : List ℕ) → readies (xs ++ ys) ≡ readies xs + readies ys
readies-append [] ys = omega arith
readies-append (x ∷ xs) ys = elim (Bool-cases (x == ready_char)) [
  | inl e ↦ rw e (omega (arith, readies-append xs ys))
  | inr e ↦ rw e (readies-append xs ys)
]

abbrev IsSignalled : Collector → Type 0
IsSignalled c = length c.pv ≤ c.unsignalled + readies c.channel + in_hand c.consumer

write_ready-IsSignalled :
    (n : ℕ) (c : Collector)
    → length c.pv ≤ n + readies c.channel + in_hand c.consumer
    → c.unsignalled ≡ n
    → IsSignalled (write_ready n c)
unfolding write_ready
write_ready-IsSignalled zero c h e = omega (arith, e)
write_ready-IsSignalled (suc n) c h e = omega (arith, readies-append c.channel (ready_char ∷ []))

module _ (c : Collector) where
  read_byte-IsSignalled :
      (bytes : List ℕ)
      → c.consumer ≡ reading
      → length c.pv ≤ c.unsignalled + readies bytes + 0
      → c.channel ≡ bytes
      → IsSignalled (read_byte bytes c)
  unfolding read_byte
  read_byte-IsSignalled [] e h k = omega (arith, ap readies k, ap in_hand e)
  read_byte-IsSignalled (b ∷ bytes) e h k = elim (Bool-cases (b == ready_char)) [
    | inl q ↦
        let l : length c.pv ≤ c.unsignalled + suc (readies bytes) + 0 = rw q at h in
        rw q (omega arith)
    | inr q ↦
        let l : length c.pv ≤ c.unsignalled + readies bytes + 0 = rw q at h in rw q (omega arith)
  ]

  swap_payloads-IsSignalled : (pv : List (List ℕ)) → c.pv ≡ pv → IsSignalled (swap_payloads pv c)
  unfolding swap_payloads
  swap_payloads-IsSignalled [] e = omega (arith, ap length e)
  swap_payloads-IsSignalled (p ∷ ps) e = omega arith

  consume-IsSignalled : (k : Consumer) → c.consumer ≡ k → IsSignalled c → IsSignalled (consume k c)
  unfolding consume send_payload
  consume-IsSignalled testing e h =
      if_intro (λ (x : Consumer). length c.pv ≤ c.unsignalled + readies c.channel + in_hand x)
        (is_done c.state) (λ _. omega (arith, ap in_hand e)) (λ _. omega (arith, ap in_hand e))
  consume-IsSignalled reading e h =
      read_byte-IsSignalled c.channel e (omega (arith, ap in_hand e)) refl
  consume-IsSignalled swapping e h = swap_payloads-IsSignalled c.pv refl
  consume-IsSignalled (sending []) e h = omega (arith, ap in_hand e)
  consume-IsSignalled (sending (p ∷ ps)) e h = omega (arith, ap in_hand e)
  consume-IsSignalled ended e h = h

Runs-IsSignalled :
    (a : List (List ℕ)) (t : List (Bool × List ℕ)) (c : Collector) → Runs a t c → IsSignalled c
unfolding push_payload write_quit set_state
Runs-IsSignalled a t c starts = omega arith
Runs-IsSignalled a t c (pushes p {a = b} {c = d} r) =
    omega (arith, Runs-IsSignalled b t d r, length-append d.pv (p ∷ []))
Runs-IsSignalled a t c (signals {c = d} r) =
    write_ready-IsSignalled d.unsignalled d (Runs-IsSignalled a t d r) refl
Runs-IsSignalled a t c (quits {c = d} r) =
    omega (arith, Runs-IsSignalled a t d r, readies-append d.channel (codes "QUIT" ++ (0 ∷ [])))
Runs-IsSignalled a t c (sets s {c = d} r) = Runs-IsSignalled a t d r
Runs-IsSignalled a t c (consumes {t = u} {c = d} r) =
    consume-IsSignalled d d.consumer refl (Runs-IsSignalled a u d r)

-- Where the two threads stand so that the consumer waits at its read and the producer is behind its
-- write, a payload that was added and not swapped yet has a byte 'R' in the channel: the read returns.
pub Runs-readies :
    (a : List (List ℕ)) (t : List (Bool × List ℕ)) (c : Collector)
    → Runs a t c
    → c.consumer ≡ reading
    → c.unsignalled ≡ 0
    → 1 ≤ length c.pv
    → 1 ≤ readies c.channel
Runs-readies a t c r e k h = omega (arith, Runs-IsSignalled a t c r, ap in_hand e)
