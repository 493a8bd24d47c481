-- ===== src/Monitor/Coordinator/Missed.antt =====
-- A worker with two entries in one slot of the wheel is never kicked out.
use mathlib.Core.Path.{subst}
use c_playground.Common.{
  All-set, All-get_or, ℕ, zero, suc, ◌<◌, ◌≤◌, ◌≡◌, refl, sym, ap, ◌∙◌, arith, List, [], ◌∷◌, All,
  some, inl, inr, ◌⊎◌, ◌==◌, eq→==, if◌then◌else◌, if_intro,
}
use c_playground.Monitor.Coordinator.{
  Info, new_wheel, tick, push_current, Coordinator, new_coordinator, erase_info, find_info,
  accept_worker, push_found, receive_ping, count_id, use_count, kick, kick_all, on_wheel_tick,
  ticks,
}

-- Empty, or two entries or more of one object.
abbrev IsDouble : Info → List Info → Type 0
IsDouble x slot = All (λ y. y ≡ x) slot × ((slot ≡ []) ⊎ (2 ≤ count_id x.id slot))

-- One worker, known to the map, with only double slots.
pub record IsMissed (x : Info) (s : Coordinator) : Type 0 where
  pub known : s.infos ≡ x ∷ []
  pub double : All (IsDouble x) s.wheel.slots

count_id_self : (x : Info) → count_id x.id (x ∷ []) ≡ 1
count_id_self x = unfold count_id in ground arith

kick_all-IsMissed :
    (x : Info) (slot xs : List Info) (s : Coordinator)
    → s.infos ≡ x ∷ []
    → 2 ≤ count_id x.id slot
    → All (λ y. y ≡ x) xs
    → kick_all slot xs s ≡ s
unfolding kick_all
kick_all-IsMissed x slot [] s e h v = refl
kick_all-IsMissed x slot (y ∷ xs) s e h v =
    ap (kick_all slot xs) stays ∙ kick_all-IsMissed x slot xs s e h v.1
  where
    used : 2 < use_count x.id slot s
    used = unfold use_count in omega (arith, ap (count_id x.id) e, count_id_self x, h)

    stays : (if use_count y.id slot s == 2 then kick y s else s) ≡ s
    stays =
        if_intro (λ t. t ≡ s) (use_count y.id slot s == 2)
          (λ q. absurd (ground (arith, q, used, ap (λ (z : Info). use_count z.id slot s) v.0)))
          (λ q. refl)

kick_all-double :
    (x : Info) (slot : List Info) (s : Coordinator)
    → s.infos ≡ x ∷ []
    → IsDouble x slot
    → kick_all slot slot s ≡ s
kick_all-double x slot s e (v, inr h) = kick_all-IsMissed x slot slot s e h v
kick_all-double x slot s e (v, inl h) =
    subst (λ t. kick_all t t s ≡ s) (sym h) (unfold kick_all in refl)

on_wheel_tick-same :
    (x : Info) (s : Coordinator)
    → IsMissed x s
    → on_wheel_tick s ≡ record s { wheel = (tick s.wheel).1 }
on_wheel_tick-same x s v =
    unfold on_wheel_tick in
    kick_all-double x (tick s.wheel).0 (record s { wheel = (tick s.wheel).1 }) v.known taken
  where
    taken : IsDouble x (tick s.wheel).0
    taken = unfold tick in All-get_or (IsDouble x) s.wheel.slots _ [] (tt, inl refl) v.double

ticked-IsMissed :
    (x : Info) (s : Coordinator) → IsMissed x s → IsMissed x (record s { wheel = (tick s.wheel).1 })
ticked-IsMissed x s v = record {
  known = v.known;
  double = unfold tick in All-set (IsDouble x) s.wheel.slots _ [] (tt, inl refl) v.double;
}

ticks-IsMissed :
    (x : Info) (n : ℕ) (s : Coordinator)
    → IsMissed x s
    → IsMissed x (ticks n s) × ((ticks n s).kicked ≡ s.kicked)
unfolding ticks
ticks-IsMissed x zero s v = (v, refl)
ticks-IsMissed x (suc n) s v =
    let e = on_wheel_tick-same x s v in
    let ih =
      ticks-IsMissed x n (on_wheel_tick s) (subst (IsMissed x) (sym e) (ticked-IsMissed x s v)) in
    (ih.0, ih.1 ∙ ap (λ (t : Coordinator). t.kicked) e)

abbrev pub first_info : ℕ → Info
first_info fd = record { id = 0; handler = fd }

-- The coordinator after the first worker's connection and its ping within the same tick.
abbrev pub pinged : ℕ → Coordinator
pinged fd = record {
  wheel = push_current (first_info fd) (push_current (first_info fd) new_wheel);
  infos = first_info fd ∷ [];
  kicked = [];
  made = 1;
}

receive_ping-accept_worker :
    (fd : ℕ) → receive_ping fd (accept_worker fd new_coordinator) ≡ some (pinged fd)
receive_ping-accept_worker fd =
    unfold receive_ping accept_worker new_coordinator erase_info find_info push_found in
    rw (eq→== fd fd refl) refl

pinged-IsMissed : (fd : ℕ) → IsMissed (first_info fd) (pinged fd)
pinged-IsMissed fd = record {
  known = refl;
  double =
      unfold push_current new_wheel count_id in
      (d, (d, (d, (d, (d, (d, (d, (d, (d, (((refl, (refl, tt)), inr (omega arith)), tt))))))))));
}
  where
    d : IsDouble (first_info fd) []
    d = (tt, inl refl)

-- A first worker that connects and pings before the next tick of the wheel, and then is silent, is never
-- kicked out, however often the wheel ticks.
pub ticks-receive_ping_missed :
    (fd n : ℕ)
    → (s : Coordinator) × (receive_ping fd (accept_worker fd new_coordinator) ≡ some s)
      × ((ticks n s).kicked ≡ [])
      × ((ticks n s).infos ≡ first_info fd ∷ [])
ticks-receive_ping_missed fd n =
    let h = ticks-IsMissed (first_info fd) n (pinged fd) (pinged-IsMissed fd) in
    (pinged fd, receive_ping-accept_worker fd, h.1, h.0.known)
