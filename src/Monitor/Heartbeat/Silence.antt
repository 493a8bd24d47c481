-- ===== src/Monitor/Heartbeat/Silence.antt =====
-- A peer that does not answer is given up at the seventh ping; one that answers is not.
use c_playground.Common.{
  ℕ, zero, suc, ◌+◌, ◌<◌, ◌≡◌, refl, ap, ◌∙◌, arith, List, [], ◌∷◌, All, Bool, true, false, Option,
  none, some, length, take, if◌then◌else◌, lt→ltb, le→ltb, leb, ne→==, eq→==, Bool-cases, inl, inr,
}
use c_playground.Common.Int.{ℤ, pos, pos_part, neg_part, ◌+ℤ◌, ◌-ℤ◌, ◌≤ℤ◌, int_laws}
use c_playground.Monitor.Heartbeat.{
  heartbeat_duration, ltz, never, Heartbeat, fresh, is_late, count_retry, ping, update_rtt, on_pong,
}

-- What was published, in front of what comes later.
abbrev pub published : Option ℤ → List ℤ → List ℤ
published none later = later
published (some sent) later = sent ∷ later

-- The pings at these times, with nothing read since `readts` and no pong: whether all returned true, and
-- the timestamps of those that were published.
abbrev pub ping_all : ℤ → List ℤ → Heartbeat → Bool × List ℤ
ping_all readts [] h = (true, [])
ping_all readts (now ∷ ts) h =
    let (alive, (h', sent)) = ping readts now h in
    let (rest, later) = ping_all readts ts h' in
    if alive then (rest, published sent later) else (false, published sent [])

-- A time after the start of the clock, at which the last read is a whole duration ago.
abbrev pub IsDue : ℤ → ℤ → Type 0
IsDue readts now = (pos 1 ≤ℤ now) × (readts +ℤ pos heartbeat_duration ≤ℤ now)

-- After the first ping, without a pong.
record IsWaiting (h : Heartbeat) : Type 0 where
  pinged : pos 1 ≤ℤ h.lastest_pingts
  unanswered : h.rtt ≡ never

not_recent :
    (readts now : ℤ) → IsDue readts now → ltz (now -ℤ readts) (pos heartbeat_duration) ≡ false
not_recent readts now d = le→ltb _ _ (omega (int_laws, d))

ping_first :
    (readts now : ℤ) (h : Heartbeat)
    → IsDue readts now
    → h.lastest_pingts ≡ never
    → 0 < h.retry
    → ping readts now h ≡ (true, (record h { lastest_pingts = now }, some now))
ping_first readts now h d e r =
    unfold ping in
    rw (not_recent readts now d, ne→== h.retry 0 (λ z. absurd (omega arith)))
      (ap (λ c. (true, (record c { lastest_pingts = now }, some now))) same)
  where
    on_time : is_late h now ≡ false
    on_time = unfold is_late in rw e refl

    same : count_retry h now ≡ h
    same = unfold count_retry in rw on_time refl

ping_waiting :
    (readts now : ℤ) (h : Heartbeat) (k : ℕ)
    → IsDue readts now
    → IsWaiting h
    → h.retry ≡ suc k
    → ping readts now h ≡ (true, (record h { lastest_pingts = now; retry = k }, some now))
ping_waiting readts now h k d w r =
    unfold ping in
    rw (not_recent readts now d, ne→== h.retry 0 (λ z. absurd (omega arith)))
      (ap (λ c. (true, (record c { lastest_pingts = now }, some now))) fewer)
  where
    late : is_late h now ≡ true
    late = unfold is_late in rw (lt→ltb _ _ positive, w.unanswered) refl
      where
        positive :
            pos_part (pos 0) + neg_part h.lastest_pingts
            < pos_part h.lastest_pingts + neg_part (pos 0)
        positive = omega (arith, w.pinged)

    fewer : count_retry h now ≡ record h { retry = k }
    fewer = unfold count_retry in rw late (ap (λ n. record h { retry = n }) (omega (arith, r)))

ping_over :
    (readts now : ℤ) (h : Heartbeat)
    → IsDue readts now
    → h.retry ≡ 0
    → ping readts now h ≡ (false, (h, none))
ping_over readts now h d r = unfold ping in rw (not_recent readts now d, eq→== h.retry 0 r) refl

abbrev go_on : ℤ → List ℤ → Bool × (Heartbeat × Option ℤ) → Bool × List ℤ
go_on readts ts (alive, (h, sent)) =
    let (rest, later) = ping_all readts ts h in
    if alive then (rest, published sent later) else (false, published sent [])

leb_zero : (n : ℕ) → true ≡ leb 0 n
leb_zero n = ground arith

none_left : (n : ℕ) → false ≡ leb (suc n) 0
none_left n = ground arith

leb-suc : (m n : ℕ) → leb m n ≡ leb (suc m) (suc n)
leb-suc m n = ground arith

ping_all-waiting :
    (readts : ℤ) (ts : List ℤ) (h : Heartbeat) (k : ℕ)
    → All (IsDue readts) ts
    → IsWaiting h
    → h.retry ≡ k
    → ping_all readts ts h ≡ (leb (length ts) k, take k ts)
ping_all-waiting readts [] h zero d w r = ap (λ b. (b, [])) (leb_zero 0)
ping_all-waiting readts [] h (suc k) d w r = ap (λ b. (b, [])) (leb_zero (suc k))
ping_all-waiting readts (now ∷ ts) h zero d w r =
    ap (go_on readts ts) (ping_over readts now h d.0 r) ∙ ap (λ b. (b, [])) (none_left (length ts))
ping_all-waiting readts (now ∷ ts) h (suc k) d w r =
    ap (go_on readts ts) (ping_waiting readts now h k d.0 w r)
    ∙ ap (λ p. (p.0, now ∷ p.1))
        (ping_all-waiting readts ts (record h { lastest_pingts = now; retry = k }) k d.1
          (record { pinged = d.0.0; unanswered = w.unanswered }) refl)
    ∙ ap (λ b. (b, now ∷ take k ts)) (leb-suc (length ts) k)

-- From a fresh session on, at times later than 0 at each of which nothing was read for a whole duration, and without a
-- pong: a ping
-- is published at each of the first six times, with that time, and at no other; and all calls
-- return true exactly when there are at most six.
pub ping_all-fresh :
    (readts : ℤ) (ts : List ℤ)
    → All (IsDue readts) ts
    → ping_all readts ts fresh ≡ (leb (length ts) 6, take 6 ts)
unfolding fresh
ping_all-fresh readts [] d = ap (λ b. (b, [])) (leb_zero 6)
ping_all-fresh readts (now ∷ ts) d =
    ap (go_on readts ts) (ping_first readts now fresh d.0 refl (omega arith))
    ∙ ap (λ p. (p.0, now ∷ p.1))
        (ping_all-waiting readts ts (record fresh { lastest_pingts = now }) 5 d.1
          (record { pinged = d.0.0; unanswered = refl }) refl)
    ∙ ap (λ b. (b, now ∷ take 5 ts)) (leb-suc (length ts) 5)

-- Pings each answered by a pong before the next.
abbrev pub ping_pong : ℤ → List (ℤ × ℤ) → Heartbeat → Bool × Heartbeat
ping_pong readts [] h = (true, h)
ping_pong readts ((now, back) ∷ ts) h =
    let (alive, (h', sent)) = ping readts now h in
    if alive then ping_pong readts ts (on_pong back now h') else (false, h')

abbrev answered : ℤ → List (ℤ × ℤ) → ℤ → ℤ → Bool × (Heartbeat × Option ℤ) → Bool × Heartbeat
answered readts ts now back (alive, (h, sent)) =
    if alive then ping_pong readts ts (on_pong back now h) else (false, h)

ping_alive :
    (readts now : ℤ) (h : Heartbeat)
    → 0 < h.retry
    → (h' : Heartbeat) × ((sent : Option ℤ) × (ping readts now h ≡ (true, (h', sent))))
ping_alive readts now h r = elim (Bool-cases (ltz (now -ℤ readts) (pos heartbeat_duration))) [
  | inl recent ↦ (h, (none, unfold ping in rw recent refl))
  | inr old ↦ (
    record (count_retry h now) { lastest_pingts = now },
    (some now, unfold ping in rw (old, ne→== h.retry 0 (λ z. absurd (omega arith))) refl),
  )
]

-- A peer that answers each ping is never given up, however late its answers are.
pub ping_pong-alive :
    (readts : ℤ) (ts : List (ℤ × ℤ)) (h : Heartbeat)
    → 0 < h.retry
    → (ping_pong readts ts h).0 ≡ true
ping_pong-alive readts [] h r = refl
ping_pong-alive readts ((now, back) ∷ ts) h r =
    let (h', (sent, e)) = ping_alive readts now h r in
    ap (λ p. (answered readts ts now back p).0) e
    ∙ ping_pong-alive readts ts (on_pong back now h') (unfold on_pong update_rtt in omega arith)
