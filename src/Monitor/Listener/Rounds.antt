-- ===== src/Monitor/Listener/Rounds.antt =====
-- Rounds of the loop and what the other threads do keep the listener sound.
use c_playground.Common.{
  ℕ, ◌+◌, ◌≡◌, refl, sym, ◌∙◌, arith, [], Option, none, some, Bool, true, false, Bool-cases, inl,
  inr, ◌&&◌, leb,
}
use mathlib.Core.Path.{subst}
use c_playground.Common.Int.{ℤ}
use c_playground.Monitor.Heartbeat.{Heartbeat, ping}
use c_playground.Monitor.Listener.{
  idle, work, is_idle, is_terminated, Listener, Doubles, Poll, Turn, running, stopped, publish,
  run_on_loop, on_connect, writer_write, on_hub, notify_small, notify_medium, notify_large,
  read_peer, on_work, on_active, after_timer, after_hub, turn, after_ping, on_ping, on_job,
}
use c_playground.Monitor.Listener.Sound.{
  IsSound, resting, serving, Follows, same, gone, Follows-IsSound, Follows-trans,
  on_disconnect-Follows, read_peer-Follows, write_all-Follows, IsQuiet, call_all-Follows,
}

-- What holds of the listener that a round leaves.
abbrev pub After : (Listener → Type 0) → Turn → Type 0
After P (running s) = P s
After P (stopped s) = P s

on_hub-Follows : (p : Poll) (s : Listener) → IsQuiet p.call → After (Follows s) (on_hub p s)
on_hub-Follows p s q = elim (Bool-cases (leb notify_large s.msghub)) [
  | inl large ↦ unfold on_hub in rw large (same (refl, refl))
  | inr e ↦ elim (Bool-cases (leb notify_medium s.msghub)) [
    | inl medium ↦
        unfold on_hub in
        rw (e, medium)
          (Follows-trans s (record s { msghub = 0; closures = [] }) _ (same (refl, refl))
            (call_all-Follows p.call s.closures (record s { msghub = 0; closures = [] }) q))
    | inr f ↦ elim (Bool-cases (leb notify_small s.msghub)) [
      | inl small ↦
          unfold on_hub writer_write in
          rw (e, f, small)
            (Follows-trans s (record s { msghub = 0; msgs = [] }) _ (same (refl, refl))
              (write_all-Follows p.ok 0 s.msgs (record s { msghub = 0; msgs = [] })))
      | inr g ↦ unfold on_hub in rw (e, f, g) (same (refl, refl))
    ]
  ]
]

-- No peer connects while the listener works.
abbrev pub IsAlone : Poll → Listener → Type 0
IsAlone p s = s.state ≡ work → p.active_in ≡ false

Follows-IsAlone : (p : Poll) (s t : Listener) → Follows s t → IsAlone p s → IsAlone p t
Follows-IsAlone p s t (same h) a w = a (sym h.0 ∙ w)
Follows-IsAlone p s t (gone i n) a w = cc (i, w)

on_active-IsSound :
    (p : Poll) (fd : Option ℕ) (s : Listener) → s.state ≡ idle → IsSound (on_active p fd s)
on_active-IsSound p none s i = unfold on_active on_connect in resting i refl
on_active-IsSound p (some fd) s i =
    unfold on_active on_connect on_work read_peer in rw i (serving fd refl refl)

after_timer-IsSound :
    (p : Poll) (s : Listener) → IsSound s → IsAlone p s → IsSound (after_timer p s)
after_timer-IsSound p s v a = elim (Bool-cases p.active_in) [
  | inl e ↦ unfold after_timer in rw e (on_active-IsSound p p.peer s (at_rest v e))
  | inr e ↦ unfold after_timer in rw e (Follows-IsSound s _ (read_peer-Follows p s) v)
]
  where
    at_rest : IsSound s → p.active_in ≡ true → s.state ≡ idle
    at_rest (resting i n) e = i
    at_rest (serving fd w n) e = cc (a w, e)

after_hub-IsSound :
    (p : Poll) (s : Listener) (t : Turn)
    → After (Follows s) t
    → IsSound s
    → IsAlone p s
    → After IsSound (after_hub p t)
after_hub-IsSound p s (stopped t) f v a = unfold after_hub in Follows-IsSound s t f v
after_hub-IsSound p s (running t) f v a = elim (Bool-cases (is_terminated t.state)) [
  | inl e ↦ unfold after_hub in rw e (Follows-IsSound s t f v)
  | inr e ↦ elim (Bool-cases (p.timer_work && p.timer_in)) [
    | inl k ↦
        unfold after_hub in
        rw (e, k) (after_timer-IsSound p (record t { pokes = t.pokes + 1 }) (poked t w) b)
    | inr k ↦ unfold after_hub in rw (e, k) (after_timer-IsSound p t w b)
  ]
]
  where
    w : IsSound t
    w = Follows-IsSound s t f v

    b : IsAlone p t
    b = Follows-IsAlone p s t f a

    poked : (t : Listener) → IsSound t → IsSound (record t { pokes = t.pokes + 1 })
    poked t (resting i n) = resting i n
    poked t (serving fd i n) = serving fd i n

-- A round of the loop, of a listener that rests or serves, leaves one that rests or serves, whatever
-- the events, if its closures leave the state and the peer alone and no peer connects while it works.
pub turn-IsSound :
    (p : Poll) (s : Listener) → IsSound s → IsQuiet p.call → IsAlone p s → After IsSound (turn p s)
turn-IsSound p s v q a = elim (Bool-cases p.hub_in) [
  | inl e ↦ unfold turn in rw e (after_hub-IsSound p s (on_hub p s) (on_hub-Follows p s q) v a)
  | inr e ↦ unfold turn in rw e (after_hub-IsSound p s (running s) (same (refl, refl)) v a)
]

after_ping-Follows :
    (d : Doubles) (r : Bool × (Heartbeat × Option ℤ)) (s : Listener) → Follows s (after_ping d r s)
after_ping-Follows d (false, (h, sent)) s =
    unfold after_ping in on_disconnect-Follows s (record s { heartbeat = h })
after_ping-Follows d (true, (h, none)) s = unfold after_ping in same (refl, refl)
after_ping-Follows d (true, (h, some now)) s = unfold after_ping publish in same (refl, refl)

on_ping-Follows : (d : Doubles) (now : ℤ) (s : Listener) → Follows s (on_ping d now s)
on_ping-Follows d now s = elim (Bool-cases (is_idle s.state)) [
  | inl e ↦ unfold on_ping in rw e (same (refl, refl))
  | inr e ↦
      unfold on_ping in
      rw e (
        Follows-trans s (longer s) _ (same (refl, refl))
          (after_ping-Follows d (ping s.lastest_readts now s.heartbeat) (longer s)))
]
  where
    longer : Listener → Listener
    longer s = record s { metrics = record s.metrics { work_ms = s.metrics.work_ms + 5000 } }

on_job-Follows : (s : Listener) → Follows s (on_job s)
on_job-Follows s = unfold on_job publish in same (refl, refl)

run_on_loop-Follows : (c : ℕ) (s : Listener) → Follows s (run_on_loop c s)
run_on_loop-Follows c s = unfold run_on_loop in same (refl, refl)

-- What the listener's threads do: rounds of its loop, pings, jobs and closures handed in.
pub data Step (s t : Listener) : Type 0 where
  round : (p : Poll) → IsQuiet p.call → IsAlone p s → turn p s ≡ running t → Step s t
  pinged : (d : Doubles) (now : ℤ) → t ≡ on_ping d now s → Step s t
  worked : t ≡ on_job s → Step s t
  handed : (c : ℕ) → t ≡ run_on_loop c s → Step s t

pub data Reach (s : Listener) : Listener → Type 0 where
  here : Reach s s
  next : {t u : Listener} → Reach s t → Step t u → Reach s u

Step-IsSound : {s t : Listener} → Step s t → IsSound s → IsSound t
Step-IsSound {s} {t} (round p q a e) v = subst (After IsSound) e (turn-IsSound p s v q a)
Step-IsSound {s} {t} (pinged d now e) v =
    subst IsSound (sym e) (Follows-IsSound s _ (on_ping-Follows d now s) v)
Step-IsSound {s} {t} (worked e) v = subst IsSound (sym e) (Follows-IsSound s _ (on_job-Follows s) v)
Step-IsSound {s} {t} (handed c e) v =
    subst IsSound (sym e) (Follows-IsSound s _ (run_on_loop-Follows c s) v)

-- Whatever rounds, pings, jobs and closures a listener that rests goes through, in any order, it is idle
-- without a peer or at work with one, if no peer connects while it works and its closures leave the
-- state and the peer alone.
pub Reach-IsSound : {s t : Listener} → IsSound s → Reach s t → IsSound t
Reach-IsSound v here = v
Reach-IsSound v (next r st) = Step-IsSound st (Reach-IsSound v r)

-- A peer that connects while another is served takes its place, and the descriptor of the other is
-- neither closed nor kept, when nothing else happens in the round.
pub turn_second_peer :
    (p : Poll) (s : Listener) (old fd : ℕ)
    → s.state ≡ work
    → s.peerfd ≡ some old
    → p.hub_in ≡ false
    → p.timer_in ≡ false
    → p.peer_in ≡ false
    → p.active_in ≡ true
    → p.peer ≡ some fd
    → (t : Listener) × ((turn p s ≡ running t)
        × (t.peerfd ≡ some fd)
        × (t.state ≡ work)
        × (t.closed ≡ s.closed))
turn_second_peer p s old fd w o h ti pi ai pe = (
  record s {
    peerfd = some fd;
    state = work;
    metrics = record s.metrics { times = s.metrics.times + 1 };
  },
  (
    unfold turn after_hub after_timer on_active read_peer on_connect on_work in ground arith,
    refl,
    refl,
    refl,
  ),
)
