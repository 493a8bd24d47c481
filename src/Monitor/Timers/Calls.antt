-- ===== src/Monitor/Timers/Calls.antt =====
-- What `post` and `cancel` keep of the timer runner: what is left at rest, and that it will wake up.
use mathlib.Core.Path.{subst}
use c_playground.Common.{
  ℕ, ◌+◌, ◌<◌, ◌≤◌, ◌≡◌, refl, sym, ap, arith, List, [], ◌∷◌, All, Option, some, true, false,
  Bool-cases, inl, inr, ◌⊎◌, if_intro, ltb→lt, ◌&&◌, ltb,
}
use c_playground.Common.Int.{ℤ, pos, negsuc}
use c_playground.Monitor.Listener.{idle, work, is_idle}
use c_playground.Monitor.Timers.{
  Task, least_duration, with_id, TimerRunner, push, erase, is_top, notify, wake, enqueue, post,
  cancel, Call, posts, cancels, call,
}

-- At time `c`: a task was made by then, with its duration.
abbrev pub IsCurrent : ℕ → Task → Type 0
IsCurrent c t = t.runat ≤ c + t.duration

abbrev pub IsShort : Task → Type 0
IsShort t = t.duration < least_duration

-- At rest only short tasks are left, of those in the heap and those that a round runs, `due`.
pub data IsSettled (due : List Task) (r : TimerRunner) : Type 0 where
  at_work : r.state ≡ work → IsSettled due r
  at_rest : r.state ≡ idle → All IsShort r.tasks → All IsShort due → IsSettled due r

-- No task is left, or the runner is notified, or the timer is set and its expiry will be read.
pub data IsAwake (r : TimerRunner) : Type 0 where
  nothing_left : r.tasks ≡ [] → IsAwake r
  notified : 0 < r.events → IsAwake r
  armed : (m : ℕ) → r.state ≡ work → r.timer ≡ some m → IsAwake r

pub All-push {ℓ} :
    (P : Task → Type ℓ) (t : Task) (ts : List Task) → P t → All P ts → All P (push t ts)
unfolding push
All-push P t [] h v = (h, v)
All-push P t (u ∷ ts) h v =
    if_intro (All P) (ltb t.runat u.runat) (λ e. (h, v)) (λ e. (v.0, All-push P t ts h v.1))

-- The heap after `enqueue` has a top, which is the task when it was alone.
enqueue-IsAwake :
    (t : Task) (r : TimerRunner)
    → IsAwake r
    → IsAwake (enqueue t r) ⊎ (is_top t (enqueue t r).tasks ≡ true)
enqueue-IsAwake t r (nothing_left e) =
    inr (unfold enqueue is_top in rw e (unfold push is_top in ground arith))
enqueue-IsAwake t r (notified h) = inl (unfold enqueue in notified h)
enqueue-IsAwake t r (armed m w e) = inl (unfold enqueue in armed m w e)

wake-IsAwake :
    (t : Task) (r : TimerRunner)
    → (r.state ≡ work) ⊎ (r.state ≡ idle)
    → IsAwake r ⊎ (is_top t r.tasks ≡ true)
    → IsAwake (wake t r)
wake-IsAwake t r st h =
    unfold wake notify in
    if_intro IsAwake (ltb t.duration least_duration) (λ s. notified (omega arith))
      (λ s.
        if_intro IsAwake (is_idle r.state) (λ i. armed t.duration refl refl)
          (λ i.
            if_intro IsAwake (is_top t r.tasks) (λ p. armed t.duration (busy i) refl)
              (λ p. before p h)))
  where
    busy : is_idle r.state ≡ false → r.state ≡ work
    busy i = elim st [ inl w ↦ w | inr q ↦ cc (i, ap is_idle q) ]

    before : is_top t r.tasks ≡ false → IsAwake r ⊎ (is_top t r.tasks ≡ true) → IsAwake r
    before p (inl a) = a
    before p (inr q) = cc (p, q)

pub wake_tasks : (t : Task) (r : TimerRunner) → (wake t r).tasks ≡ r.tasks
wake_tasks t r = unfold wake notify in ground arith

at_all : (due : List Task) (r : TimerRunner) → IsSettled due r → (r.state ≡ work) ⊎ (r.state ≡ idle)
at_all due r (at_work w) = inl w
at_all due r (at_rest i s d) = inr i

wake_at_work : (t : Task) (r : TimerRunner) → r.state ≡ work → (wake t r).state ≡ work
wake_at_work t r w = elim (Bool-cases (ltb t.duration least_duration)) [
  | inl s ↦ unfold wake notify in rw (s, w) refl
  | inr s ↦ elim (Bool-cases (is_top t r.tasks)) [
    | inl p ↦ unfold wake in rw (s, w, p) refl
    | inr p ↦ unfold wake in rw (s, w, p) refl
  ]
]

-- A task that is put in the heap and waked for keeps the runner settled.
wake-IsSettled :
    (t : Task) (due : List Task) (r : TimerRunner)
    → IsSettled due r
    → IsSettled due (wake t (enqueue t r))
wake-IsSettled t due r (at_work w) = at_work (wake_at_work t (enqueue t r) (unfold enqueue in w))
wake-IsSettled t due r (at_rest i s d) =
    unfold wake enqueue notify in
    if_intro (IsSettled due) (ltb t.duration least_duration)
      (λ q. at_rest i (All-push IsShort t r.tasks (ltb→lt t.duration least_duration q) s) d)
      (λ q.
        if_intro (IsSettled due) (is_idle r.state) (λ k. at_work refl) (λ k. cc (k, ap is_idle i)))

notify-IsSettled : (due : List Task) (r : TimerRunner) → IsSettled due r → IsSettled due (notify r)
notify-IsSettled due r (at_work w) = unfold notify in at_work w
notify-IsSettled due r (at_rest i s d) = unfold notify in at_rest i s d

post-IsSettled :
    (t : Task) (due : List Task) (r : TimerRunner) → IsSettled due r → IsSettled due (post t r).1
post-IsSettled t due r v =
    unfold post in
    if_intro (λ (p : Option ℕ × TimerRunner). IsSettled due p.1) t.callable
      (λ q. wake-IsSettled (with_id (r.last_id + 1) t) due r v) (λ q. notify-IsSettled due r v)

pub cancel-same :
    (i : ℤ) (r : TimerRunner)
    → (P : TimerRunner → Type 0) → ((m : List ℕ) → P (record r { marks = m }))
    → P (cancel i r)
cancel-same (pos i) r P h =
    unfold cancel in
    if_intro P (ltb 0 i && ltb i r.last_id) (λ q. h (erase i r.marks)) (λ q. h r.marks)
cancel-same (negsuc n) r P h = unfold cancel in h r.marks

abbrev pub IsCurrentCall : ℕ → Call → Type 0
IsCurrentCall c (posts t) = IsCurrent c t
IsCurrentCall c (cancels i) = Unit {0}

pub call-IsSettled :
    (k : Call) (due : List Task) (r : TimerRunner) → IsSettled due r → IsSettled due (call k r)
call-IsSettled (posts t) due r v = unfold call in post-IsSettled t due r v
call-IsSettled (cancels i) due r v = unfold call in cancel-same i r (IsSettled due) (λ m. same m v)
  where
    same : (m : List ℕ) → IsSettled due r → IsSettled due (record r { marks = m })
    same m (at_work w) = at_work w
    same m (at_rest j s d) = at_rest j s d

pub call-IsCurrent :
    (c : ℕ) (k : Call) (r : TimerRunner)
    → IsCurrentCall c k
    → All (IsCurrent c) r.tasks
    → All (IsCurrent c) (call k r).tasks
call-IsCurrent c (posts t) r h v =
    unfold call post notify in
    if_intro (λ (p : Option ℕ × TimerRunner). All (IsCurrent c) p.1.tasks) t.callable
      (λ q.
        subst (All (IsCurrent c)) (sym (wake_tasks u (enqueue u r)))
          (unfold enqueue in All-push (IsCurrent c) u r.tasks h v))
      (λ q. v)
  where
    u : Task
    u = with_id (r.last_id + 1) t
call-IsCurrent c (cancels i) r h v =
    unfold call in cancel-same i r (λ s. All (IsCurrent c) s.tasks) (λ m. v)

-- `post` and `cancel` leave the runner awake.
pub call-IsAwake : (k : Call) (r : TimerRunner) → IsSettled [] r → IsAwake r → IsAwake (call k r)
call-IsAwake (posts t) r v a =
    unfold call post notify in
    if_intro (λ (p : Option ℕ × TimerRunner). IsAwake p.1) t.callable
      (λ q.
        wake-IsAwake (with_id (r.last_id + 1) t) (enqueue (with_id (r.last_id + 1) t) r)
          (unfold enqueue in at_all [] r v) (enqueue-IsAwake (with_id (r.last_id + 1) t) r a))
      (λ q. notified (omega arith))
call-IsAwake (cancels i) r v a = unfold call in cancel-same i r IsAwake (λ m. same m a)
  where
    same : (m : List ℕ) → IsAwake r → IsAwake (record r { marks = m })
    same m (nothing_left e) = nothing_left e
    same m (notified h) = notified h
    same m (armed n w e) = armed n w e
