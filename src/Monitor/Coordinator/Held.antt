-- ===== src/Monitor/Coordinator/Held.antt =====
-- A worker that has pinged is kept for nine ticks of the wheel.
use mathlib.Core.Path.{subst}
use c_playground.Common.{
  All-set, All-get_or, All-weaken, ℕ, zero, suc, ◌+◌, ◌-◌, ◌<◌, ◌≤◌, ◌≡◌, ◌≢◌, refl, sym, ap, ◌∙◌,
  arith, List, [], ◌∷◌, ◌++◌, All, All-append, some, get_or, get_or-set_self, get_or-set_ne, length,
  true, Bool-cases, inl, inr, ◌⊎◌, ◌==◌, ne→==, ==→eq, if◌then◌else◌, if_intro,
}
use c_playground.Monitor.Coordinator.{
  Info, wheel_size, TimeWheel, tick, push_current, Coordinator, erase_info, find_info, push_found,
  receive_ping, count_id, count_slots, use_count, kick, kick_all, on_wheel_tick, ticks,
}

-- An entry of the wheel for the same handler is the same object.
abbrev pub IsOwn : Info → Info → Type 0
IsOwn x y = (y.handler ≢ x.handler) ⊎ (y.id ≡ x.id)

find_info-erase_info :
    (fd fd' : ℕ) (xs : List Info) → fd ≢ fd' → find_info fd (erase_info fd' xs) ≡ find_info fd xs
unfolding find_info erase_info
find_info-erase_info fd fd' [] h = refl
find_info-erase_info fd fd' (x ∷ xs) h = elim (Bool-cases (x.handler == fd')) [
  | inl e ↦
      rw (e, ne→== x.handler fd (λ q. h (sym q ∙ ==→eq x.handler fd' e)))
        (find_info-erase_info fd fd' xs h)
  | inr e ↦
      rw e (ap (λ r. if x.handler == fd then some x else r) (find_info-erase_info fd fd' xs h))
]

found_counts :
    (x : Info) (fd : ℕ) (xs : List Info) → find_info fd xs ≡ some x → 0 < count_id x.id xs
unfolding find_info count_id
found_counts x fd [] e = cc e
found_counts x fd (y ∷ xs) e = elim (Bool-cases (y.handler == fd)) [
  | inl q ↦
      let same : some y ≡ some x = ap (λ b. if b then some y else find_info fd xs) (sym q) ∙ e in
      let z : y ≡ x = cc same in ground (arith, ap (λ (u : Info). u.id) z)
  | inr q ↦
      let rest : find_info fd xs ≡ some x =
        ap (λ b. if b then some y else find_info fd xs) (sym q) ∙ e in
      ground (arith, found_counts x fd xs rest)
]

-- What a tick of the wheel keeps of a worker: its place in the map, and that it is not kicked out.
pub record IsHeld (x : Info) (s : Coordinator) : Type 0 where
  pub found : find_info x.handler s.infos ≡ some x
  pub spared : All (λ fd. fd ≢ x.handler) s.kicked

kick_all-IsHeld :
    (x : Info) (slot xs : List Info) (s : Coordinator)
    → IsHeld x s
    → 0 < count_slots x.id s.wheel.slots
    → All (IsOwn x) xs
    → All (λ y. 0 < count_id y.id slot) xs
    → IsHeld x (kick_all slot xs s) × ((kick_all slot xs s).wheel ≡ s.wheel)
unfolding kick_all
kick_all-IsHeld x slot [] s v h o c = (v, refl)
kick_all-IsHeld x slot (y ∷ xs) s v h o c =
    let ih =
      kick_all-IsHeld x slot xs t held.0 (subst (λ w. 0 < count_slots x.id w.slots) (sym held.1) h)
        o.1 c.1 in
    (ih.0, ih.1 ∙ held.1)
  where
    t : Coordinator
    t = if use_count y.id slot s == 2 then kick y s else s

    other : (use_count y.id slot s == 2) ≡ true → IsOwn x y → y.handler ≢ x.handler
    other q (inl n) = n
    other q (inr i) = absurd (
        three (subst (λ j. 0 < count_id j slot) i c.0)
          (ap (λ j. use_count j slot s) (sym i) ∙ ==→eq (use_count y.id slot s) 2 q))
      where
        three : 0 < count_id x.id slot → use_count x.id slot s ≡ 2 → ⊥
        three k e =
            unfold use_count in omega (arith, e, found_counts x x.handler s.infos v.found, h, k)

    held : IsHeld x t × (t.wheel ≡ s.wheel)
    held =
        if_intro (λ (u : Coordinator). IsHeld x u × (u.wheel ≡ s.wheel))
          (use_count y.id slot s == 2)
          (λ q.
            unfold kick in
            (
              record {
                found =
                    find_info-erase_info x.handler y.handler s.infos (λ e. other q o.0 (sym e))
                    ∙ v.found;
                spared = (other q o.0, v.spared);
              },
              refl,
            ))
          (λ q. (v, refl))

members_counted : (xs : List Info) → All (λ y. 0 < count_id y.id xs) xs
unfolding count_id
members_counted [] = tt
members_counted (x ∷ xs) = (
  ground arith,
  All-weaken (λ y. 0 < count_id y.id xs)
      (λ y. 0 < (if x.id == y.id then 1 else 0) + count_id y.id xs) xs (λ y h. omega (arith, h))
      (members_counted xs),
)

count_slots-get_or :
    (id : ℕ) (ss : List (List Info)) (i : ℕ) → count_id id (get_or ss i []) ≤ count_slots id ss
unfolding count_slots
count_slots-get_or id [] i = unfold count_id in omega arith
count_slots-get_or id (s ∷ ss) zero = omega arith
count_slots-get_or id (s ∷ ss) (suc i) = omega (arith, count_slots-get_or id ss i)

-- The slot at `a`, which the wheel reaches in `d` ticks, has an entry of the worker, and every entry for
-- its handler is its own.
record IsAhead (x : Info) (a d : ℕ) (w : TimeWheel) : Type 0 where
  pub own : All (All (IsOwn x)) w.slots
  pub entered : 0 < count_id x.id (get_or w.slots a [])
  pub place : w.at < wheel_size
  pub ahead : (w.at ≡ a + d) ⊎ (w.at + wheel_size ≡ a + d)

tick-IsAhead :
    (x : Info) (a d : ℕ) (w : TimeWheel)
    → IsAhead x a (suc (suc d)) w
    → d < 9
    → a < wheel_size
    → IsAhead x a (suc d) (tick w).1
tick-IsAhead x a d w v h k =
    unfold tick in
    record {
      own = All-set (All (IsOwn x)) w.slots at [] tt v.own;
      entered =
          subst (λ l. 0 < count_id x.id l)
            (sym (get_or-set_ne w.slots at a [] [] (λ q. apart next q))) v.entered;
      place = ground (arith, v.place);
      ahead = next;
    }
  where
    at : ℕ
    at = (if w.at == 0 then wheel_size else w.at) - 1

    next : (at ≡ a + suc d) ⊎ (at + wheel_size ≡ a + suc d)
    next = elim v.ahead [
      | inl e ↦ inl (ground (arith, e))
      | inr e ↦ elim (Bool-cases (w.at == 0)) [
        | inl z ↦ inl (ground (arith, e, z))
        | inr z ↦ inr (ground (arith, e, z))
      ]
    ]

    apart : (at ≡ a + suc d) ⊎ (at + wheel_size ≡ a + suc d) → at ≡ a → ⊥
    apart (inl e) q = omega (arith, e, q)
    apart (inr e) q = omega (arith, e, q)

on_wheel_tick-IsHeld :
    (x : Info) (a d : ℕ) (s : Coordinator)
    → IsHeld x s
    → IsAhead x a (suc (suc d)) s.wheel
    → d < 9
    → a < wheel_size
    → IsHeld x (on_wheel_tick s) × IsAhead x a (suc d) (on_wheel_tick s).wheel
on_wheel_tick-IsHeld x a d s v w h k =
    unfold on_wheel_tick in (z.0, subst (IsAhead x a (suc d)) (sym z.1) ahead)
  where
    ahead : IsAhead x a (suc d) (tick s.wheel).1
    ahead = tick-IsAhead x a d s.wheel w h k

    taken : All (IsOwn x) (tick s.wheel).0
    taken = unfold tick in All-get_or (All (IsOwn x)) s.wheel.slots _ [] tt w.own

    slot : List Info
    slot = (tick s.wheel).0

    after : Coordinator
    after = record s { wheel = (tick s.wheel).1 }

    z : IsHeld x (kick_all slot slot after) × ((kick_all slot slot after).wheel ≡ after.wheel)
    z =
        kick_all-IsHeld x slot slot after (record { found = v.found; spared = v.spared })
          (omega (arith, count_slots-get_or x.id (tick s.wheel).1.slots a, ahead.entered)) taken
          (members_counted slot)

ticks-IsHeld :
    (x : Info) (a d n : ℕ) (s : Coordinator)
    → IsHeld x s
    → IsAhead x a (suc d) s.wheel
    → n ≤ d
    → d ≤ 9
    → a < wheel_size
    → IsHeld x (ticks n s)
unfolding ticks
ticks-IsHeld x a d zero s v w h b k = v
ticks-IsHeld x a zero (suc n) s v w h b k = absurd (omega arith)
ticks-IsHeld x a (suc d) (suc n) s v w h b k =
    let z = on_wheel_tick-IsHeld x a d s v w (omega arith) k in
    ticks-IsHeld x a d n (on_wheel_tick s) z.0 z.1 (omega arith) (omega arith) k

count_id-append : (id : ℕ) (xs : List Info) (x : Info) → x.id ≡ id → 0 < count_id id (xs ++ x ∷ [])
unfolding count_id
count_id-append id [] x e = ground arith
count_id-append id (y ∷ xs) x e = omega (arith, count_id-append id xs x e)

push_current-IsAhead :
    (x : Info) (w : TimeWheel)
    → length w.slots ≡ wheel_size
    → w.at < wheel_size
    → All (All (IsOwn x)) w.slots
    → IsAhead x w.at 10 (push_current x w)
push_current-IsAhead x w l p o =
    unfold push_current in
    record {
      own =
          All-set (All (IsOwn x)) w.slots w.at (get_or w.slots w.at [] ++ x ∷ [])
            (All-append (IsOwn x) (get_or w.slots w.at []) (x ∷ [])
              (All-get_or (All (IsOwn x)) w.slots w.at [] tt o) (inr refl, tt))
            o;
      entered =
          subst (λ s. 0 < count_id x.id s)
            (sym (
              get_or-set_self w.slots w.at (get_or w.slots w.at [] ++ x ∷ []) []
                (omega (arith, l, p))))
            (count_id-append x.id (get_or w.slots w.at []) x refl);
      place = p;
      ahead = inr refl;
    }

-- A worker in the map, not kicked out so far, that pings stays there and is not kicked out for the next
-- nine ticks of a wheel of ten slots, if each entry of the wheel for its handler is its own, whatever other workers' entries there are.
pub ticks-receive_ping-IsHeld :
    (x : Info) (s : Coordinator) (n : ℕ)
    → IsHeld x s
    → length s.wheel.slots ≡ wheel_size
    → s.wheel.at < wheel_size
    → All (All (IsOwn x)) s.wheel.slots
    → n ≤ 9
    → (t : Coordinator) × (receive_ping x.handler s ≡ some t) × IsHeld x (ticks n t)
ticks-receive_ping-IsHeld x s n v l p o h = (
  t,
  (unfold receive_ping in ap (λ f. push_found f s) v.found ∙ (unfold push_found in refl)),
  ticks-IsHeld x s.wheel.at 9 n t (record { found = v.found; spared = v.spared })
      (push_current-IsAhead x s.wheel l p o) h (omega arith) p,
)
  where
    t : Coordinator
    t = record s { wheel = push_current x s.wheel }
