-- ===== src/Arp/Descriptors.antt =====
-- Which descriptors `test_arping` opens and closes.
use c_playground.Common.{
  ℕ, zero, suc, ◌+◌, ◌≡◌, ◌≢◌, refl, sym, ap, ◌∙◌, arith, List, [], ◌∷◌, Option, none, some, inl,
  inr, Bool, true, false, Bool-cases, Option-cases, length, leb, ◌==◌, if◌then◌else◌,
}
use c_playground.Common.Int.{ℤ, negsuc}
use c_playground.Arp.Packet.{Mac, Ip, Report, read_arp, is_invalid}
use c_playground.Arp.{
  Fd, Event, opened, queried, bound, sent, received, closed, Kernel, get_if_ip4, Info, info_hwaddr,
  info_index, info_query, info_socket, get_if_info, bind_socket, bind_arp, send_arp, wait_reply,
  Ending, returned, waiting, close_arp, unless_reply, after_wait, after_send, after_bind,
  after_info, test_arping,
}

abbrev pub one_if : Bool → ℕ
one_if b = if b then 1 else 0

-- How often `socket` has returned the descriptor `n`.
abbrev pub opens : ℕ → List Event → ℕ
opens n [] = 0
opens n (opened none ∷ t) = opens n t
opens n (opened (some m) ∷ t) = one_if (n == m) + opens n t
opens n (queried m ∷ t) = opens n t
opens n (bound m ∷ t) = opens n t
opens n (sent fd p ∷ t) = opens n t
opens n (received fd ∷ t) = opens n t
opens n (closed fd ∷ t) = opens n t

-- How often the descriptor `n` was closed.
abbrev pub closes : ℕ → List Event → ℕ
closes n [] = 0
closes n (opened fd ∷ t) = closes n t
closes n (queried m ∷ t) = closes n t
closes n (bound m ∷ t) = closes n t
closes n (sent fd p ∷ t) = closes n t
closes n (received fd ∷ t) = closes n t
closes n (closed none ∷ t) = closes n t
closes n (closed (some m) ∷ t) = one_if (n == m) + closes n t

-- Neither opens nor closes anything.
abbrev Quiet : ℕ → List Event → List Event → Type 0
Quiet n t t' = (opens n t' ≡ opens n t) × (closes n t' ≡ closes n t)

get_if_ip4-Quiet :
    (n : ℕ) (k : Kernel) (fd : ℕ) (name : List ℕ) (t : List Event)
    → Quiet n t (get_if_ip4 k fd name t).1
unfolding get_if_ip4
get_if_ip4-Quiet n k fd name t = elim (Bool-cases (leb 16 (length name))) [
  | inl h ↦ rw h (refl, refl)
  | inr h ↦ rw h (refl, refl)
]

info_hwaddr-Quiet :
    (n : ℕ) (k : Kernel) (fd : ℕ) (name : List ℕ) (i : ℤ) (m : Option Mac) (t : List Event)
    → Quiet n t (info_hwaddr k fd name i m t).1
info_hwaddr-Quiet n k fd name i none t = unfold info_hwaddr in (refl, refl)
info_hwaddr-Quiet n k fd name i (some m) t = unfold info_hwaddr in get_if_ip4-Quiet n k fd name t

info_index-Quiet :
    (n : ℕ) (k : Kernel) (fd : ℕ) (name : List ℕ) (i : Option ℤ) (t : List Event)
    → Quiet n t (info_index k fd name i t).1
info_index-Quiet n k fd name none t = unfold info_index in (refl, refl)
info_index-Quiet n k fd name (some i) t =
    unfold info_index in info_hwaddr-Quiet n k fd name i (k.if_hwaddr t fd name) (queried fd ∷ t)

info_query-Quiet :
    (n : ℕ) (k : Kernel) (fd : ℕ) (name : List ℕ) (t : List Event)
    → Quiet n t (info_query k fd name t).1
unfolding info_query
info_query-Quiet n k fd name t = elim (Bool-cases (leb 16 (length name))) [
  | inl h ↦ rw h (refl, refl)
  | inr h ↦ rw h (info_index-Quiet n k fd name (k.if_index t fd name) (queried fd ∷ t))
]

pub wait_reply_step :
    (fuel : ℕ) (k : Kernel) (fd : Fd) (t : List Event)
    → read_arp (k.stack t) (k.receive t fd) ≡ none
    → wait_reply (suc fuel) k fd t ≡ wait_reply fuel k fd (received fd ∷ t)
unfolding wait_reply unless_reply
wait_reply_step fuel k fd t e =
    ap (λ o. unless_reply o (received fd ∷ t) (wait_reply fuel k fd (received fd ∷ t))) e

pub wait_reply_end :
    (fuel : ℕ) (k : Kernel) (fd : Fd) (t : List Event) (r : Report)
    → read_arp (k.stack t) (k.receive t fd) ≡ some r
    → wait_reply (suc fuel) k fd t ≡ some (r, received fd ∷ t)
unfolding wait_reply unless_reply
wait_reply_end fuel k fd t r e =
    ap (λ o. unless_reply o (received fd ∷ t) (wait_reply fuel k fd (received fd ∷ t))) e

wait_reply-Quiet :
    (n fuel : ℕ) (k : Kernel) (fd : Fd) (t : List Event) (r : Report) (t' : List Event)
    → wait_reply fuel k fd t ≡ some (r, t')
    → Quiet n t t'
wait_reply-Quiet n zero k fd t r t' e = cc (spent k fd t, e)
  where
    spent : (k : Kernel) (fd : Fd) (t : List Event) → wait_reply zero k fd t ≡ none
    spent k fd t = unfold wait_reply in refl
wait_reply-Quiet n (suc fuel) k fd t r t' e =
    elim (Option-cases (read_arp (k.stack t) (k.receive t fd))) [
      | inl silent ↦
          wait_reply-Quiet n fuel k fd (received fd ∷ t) r t'
            (sym (wait_reply_step fuel k fd t silent) ∙ e)
      | inr (r', reply) ↦
          let same : t' ≡ received fd ∷ t = cc (e, wait_reply_end fuel k fd t r' reply) in
          rw same (refl, refl)
    ]

-- As often opened as closed.
abbrev pub Balanced : ℕ → List Event → Type 0
Balanced n t = opens n t ≡ closes n t

info_socket-Balanced :
    (n : ℕ) (k : Kernel) (name : List ℕ) (s : Fd) (t : List Event)
    → s ≢ some 0
    → Balanced n t
    → Balanced n (info_socket k name s (opened s ∷ t)).1
info_socket-Balanced n k name none t h b = unfold info_socket in b
info_socket-Balanced n k name (some zero) t h b = absurd (h refl)
info_socket-Balanced n k name (some (suc m)) t h b =
    unfold info_socket in
    let quiet = info_query-Quiet n k (suc m) name (opened (some (suc m)) ∷ t) in
    omega (arith, quiet.0, quiet.1, b)

close_arp-Balanced :
    (n : ℕ) (s : Fd) (t : List Event)
    → s ≢ some 0
    → opens n t ≡ opens n (opened s ∷ []) + closes n t
    → Balanced n (close_arp s t)
close_arp-Balanced n none t h b = unfold close_arp in omega (arith, b)
close_arp-Balanced n (some zero) t h b = absurd (h refl)
close_arp-Balanced n (some (suc m)) t h b = unfold close_arp in omega (arith, b)

-- The descriptor is as often closed as opened when the program ends, if it does.
abbrev pub AllClosed : ℕ → Ending → Type 0
AllClosed n (returned z t) = Balanced n t
AllClosed n waiting = Unit {0}

-- `fd` is open, and the others are as often closed as opened.
abbrev Holding : ℕ → Fd → List Event → Type 0
Holding n fd t = opens n t ≡ opens n (opened fd ∷ []) + closes n t

after_wait-AllClosed :
    (n : ℕ) (fd : Fd) (found : Option (Report × List Event))
    → fd ≢ some 0
    → ((r : Report) (t : List Event) → found ≡ some (r, t) → Holding n fd t)
    → AllClosed n (after_wait fd found)
after_wait-AllClosed n fd none h k = unfold after_wait in tt
after_wait-AllClosed n fd (some (r, t)) h k =
    unfold after_wait in close_arp-Balanced n fd t h (k r t refl)

after_send-AllClosed :
    (n fuel : ℕ) (k : Kernel) (fd : Fd) (done : Bool) (t : List Event)
    → fd ≢ some 0
    → Holding n fd t
    → AllClosed n (after_send fuel k fd (done, t))
after_send-AllClosed n fuel k fd false t h b = unfold after_send in close_arp-Balanced n fd t h b
after_send-AllClosed n fuel k fd true t h b =
    unfold after_send in
    after_wait-AllClosed n fd (wait_reply fuel k fd t) h (λ r t' e.
      let quiet = wait_reply-Quiet n fuel k fd t r t' e in omega (arith, quiet.0, quiet.1, b))

after_bind-AllClosed :
    (n fuel : ℕ) (k : Kernel) (info : Info) (dst : Ip) (fd : Fd) (t : List Event)
    → fd ≢ some 0
    → ((m : ℕ) → k.bind (opened fd ∷ t) (suc m) info.index ≡ true)
    → Balanced n t
    → AllClosed n (after_bind fuel k info dst fd (bind_socket k info.index fd (opened fd ∷ t)))
after_bind-AllClosed n fuel k info dst none t h w b =
    unfold after_bind bind_socket in
    close_arp-Balanced n none (opened none ∷ t) h (omega (arith, b))
after_bind-AllClosed n fuel k info dst (some zero) t h w b = absurd (h refl)
after_bind-AllClosed n fuel k info dst (some (suc m)) t h w b =
    unfold after_bind bind_socket in
    rw (w m)
      (unfold send_arp in after_send-AllClosed n fuel k (some (suc m)) _ _ h (omega (arith, b)))

after_info-AllClosed :
    (n fuel : ℕ) (k : Kernel) (dst : Ip) (found : Option Info) (t : List Event)
    → k.socket t ≢ some 0
    → ((i : ℤ) (m : ℕ) → k.bind (opened (k.socket t) ∷ t) (suc m) i ≡ true)
    → (found ≡ none → k.stack_fd t ≡ some 0)
    → Balanced n t
    → AllClosed n (after_info fuel k dst (found, t))
after_info-AllClosed n fuel k dst none t h w z b =
    unfold after_info in rw (z refl) (unfold close_arp in b)
after_info-AllClosed n fuel k dst (some info) t h w z b =
    unfold after_info bind_arp in
    after_bind-AllClosed n fuel k info dst (k.socket t) t h (w info.index) b

-- Where `socket` never returns 0 and `bind` never fails, and `arp_fd`, which nothing was stored in, happens
-- to be 0 if `get_if_info` fails, `test_arping` has closed each descriptor as often as `socket` has
-- returned it when it returns: after an address or an interface that it refuses, a socket that is not opened, a
-- request that is not sent, or a reply.
pub test_arping-AllClosed :
    (n fuel : ℕ) (k : Kernel) (name : List ℕ) (dst : Ip)
    → ((t : List Event) → k.socket t ≢ some 0)
    → ((t : List Event) (m : ℕ) (i : ℤ) → k.bind t m i ≡ true)
    → ((get_if_info k name []).0 ≡ none → k.stack_fd (get_if_info k name []).1 ≡ some 0)
    → AllClosed n (test_arping fuel k name dst)
test_arping-AllClosed n fuel k name dst h w z = elim (Bool-cases (is_invalid dst)) [
  | inl bad ↦ unfold test_arping in rw bad refl
  | inr good ↦
      unfold test_arping in
      rw good (
        after_info-AllClosed n fuel k dst (get_if_info k name []).0 (get_if_info k name []).1 (h _)
          (λ i m. w _ (suc m) i) z
          (unfold get_if_info in info_socket-Balanced n k name (k.socket []) [] (h []) refl))
]

-- A failure of `get_if_info` sends `test_arping` to its label before `arp_fd` is set: what the stack holds
-- there is closed.
pub test_arping_stack_fd :
    (fuel : ℕ) (k : Kernel) (name : List ℕ) (dst : Ip)
    → is_invalid dst ≡ false
    → (get_if_info k name []).0 ≡ none
    → let t = (get_if_info k name []).1 in
      test_arping fuel k name dst ≡ returned (negsuc 0) (close_arp (k.stack_fd t) t)
test_arping_stack_fd fuel k name dst valid e =
    unfold test_arping in
    rw valid (
      ap (λ found. after_info fuel k dst (found, (get_if_info k name []).1)) e
      ∙ (unfold after_info in refl))

-- When `bind` fails on the descriptor that `socket` has returned, both `bind_arp` and `test_arping`
-- close it.
pub test_arping_closed_twice :
    (fuel : ℕ) (k : Kernel) (name : List ℕ) (dst : Ip) (info : Info) (t : List Event) (m : ℕ)
    → is_invalid dst ≡ false
    → get_if_info k name [] ≡ (some info, t)
    → k.socket t ≡ some (suc m)
    → k.bind (opened (some (suc m)) ∷ t) (suc m) info.index ≡ false
    → test_arping fuel k name dst
      ≡ returned (negsuc 0) (
          closed (some (suc m)) ∷ closed (some (suc m)) ∷ bound (suc m) ∷ opened (some (suc m)) ∷ t)
test_arping_closed_twice fuel k name dst info t m valid e s b =
    unfold test_arping in
    rw (valid, e)
      (unfold after_info bind_arp in rw s (unfold after_bind bind_socket close_arp in rw b refl))
