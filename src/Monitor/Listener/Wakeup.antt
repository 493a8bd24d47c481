-- ===== src/Monitor/Listener/Wakeup.antt =====
-- When the hub's event writes what was published, and when it does not.
use c_playground.Common.{
  ℕ, zero, suc, ◌+◌, ◌^◌, ◌<◌, ◌≡◌, refl, sym, ap, ◌∙◌, arith, List, [], ◌∷◌, ◌++◌, append-nil,
  append_assoc, true, Bool,
}
use c_playground.Common.Int.{ℤ, pos, negsuc}
use c_playground.Monitor.Message.{MsgRaw}
use c_playground.Monitor.Listener.{
  Listener, Poll, running, notify_medium, publish, run_on_loop, count_op, write_all, writer_write,
  call_all, on_hub,
}

-- A closure leaves the queue, the hub and what was written alone.
abbrev pub IsSilent : (ℕ → Listener → Listener) → Type 0
IsSilent call =
    (c : ℕ) (s : Listener)
    → ((call c s).msgs ≡ s.msgs) × ((call c s).msghub ≡ s.msghub) × ((call c s).written ≡ s.written)

call_all-silent :
    (call : ℕ → Listener → Listener) (cs : List ℕ) (s : Listener)
    → IsSilent call
    → ((call_all call cs s).msgs ≡ s.msgs)
      × ((call_all call cs s).msghub ≡ s.msghub)
      × ((call_all call cs s).written ≡ s.written)
unfolding call_all
call_all-silent call [] s q = (refl, refl, refl)
call_all-silent call (c ∷ cs) s q =
    let t : Listener = record s { ran = c ∷ s.ran } in
    let ih = call_all-silent call cs (call c t) q in
    let h = q c t in (ih.0 ∙ h.0, ih.1 ∙ h.1, ih.2 ∙ h.2)

-- A message that is published before a closure is handed in, both before the hub's event, is not
-- written by it: it stays queued, and the hub has no event left for it.
pub on_hub_starved :
    (p : Poll) (s : Listener) (m : MsgRaw) (c : ℕ)
    → IsSilent p.call
    → s.msghub < 2 ^ 62
    → (t : Listener) × ((on_hub p (run_on_loop c (publish m s)) ≡ running t)
        × (t.msgs ≡ s.msgs ++ m ∷ [])
        × (t.msghub ≡ 0)
        × (t.written ≡ s.written))
on_hub_starved p s m c q h =
    let u : Listener = record (run_on_loop c (publish m s)) { msghub = 0; closures = [] } in
    let quiet = call_all-silent p.call (s.closures ++ c ∷ []) u q in
    (
      call_all p.call (s.closures ++ c ∷ []) u,
      (
        hub_step,
        quiet.0 ∙ (unfold run_on_loop publish in refl),
        quiet.1,
        quiet.2 ∙ (unfold run_on_loop publish in refl),
      ),
    )
  where
    hub_step :
        on_hub p (run_on_loop c (publish m s))
        ≡ running (
            call_all p.call
              (s.closures ++ c ∷ [])
              (record (run_on_loop c (publish m s)) { msghub = 0; closures = [] }))
    hub_step = unfold on_hub run_on_loop publish in ground arith

abbrev noted : MsgRaw → Listener → Listener
noted m s = record s { written = s.written ++ m ∷ [] }

abbrev Queue : Listener → Listener → Type 0
Queue s t = (t.written ≡ s.written) × (t.msgs ≡ s.msgs) × (t.msghub ≡ s.msghub)

count_op-Queue : (type : ℤ) (s : Listener) → Queue s (count_op type s)
unfolding count_op
count_op-Queue (negsuc n) s = (refl, refl, refl)
count_op-Queue (pos zero) s = (refl, refl, refl)
count_op-Queue (pos (suc zero)) s = (refl, refl, refl)
count_op-Queue (pos (suc (suc zero))) s = ground arith
count_op-Queue (pos (suc (suc (suc n)))) s = (refl, refl, refl)

write_all_next :
    (ok : ℕ → Bool) (i : ℕ) (m : MsgRaw) (ms : List MsgRaw) (s : Listener)
    → ok i ≡ true
    → write_all ok i (m ∷ ms) s ≡ write_all ok (i + 1) ms (count_op m.type (noted m s))
write_all_next ok i m ms s e = unfold write_all in rw e refl

pub write_all-written :
    (ok : ℕ → Bool) (i : ℕ) (ms : List MsgRaw) (s : Listener)
    → ((j : ℕ) → ok j ≡ true)
    → ((write_all ok i ms s).written ≡ s.written ++ ms)
      × ((write_all ok i ms s).msgs ≡ s.msgs)
      × ((write_all ok i ms s).msghub ≡ s.msghub)
write_all-written ok i [] s h = unfold write_all in (sym (append-nil s.written), refl, refl)
write_all-written ok i (m ∷ ms) s h =
    let e = write_all_next ok i m ms s (h i) in
    let k = count_op-Queue m.type (noted m s) in
    let ih = write_all-written ok (i + 1) ms (count_op m.type (noted m s)) h in
    (
      ap (λ t. t.written) e ∙ ih.0 ∙ ap (λ w. w ++ ms) k.0 ∙ append_assoc s.written (m ∷ []) ms,
      ap (λ t. t.msgs) e ∙ ih.1 ∙ k.1,
      ap (λ t. t.msghub) e ∙ ih.2 ∙ k.2,
    )

-- An event of the hub whose count is above 0 and below that of a closure writes all that was published,
-- in order, if the writes succeed, and leaves the queue and the count empty.
pub on_hub-written :
    (p : Poll) (s : Listener)
    → ((j : ℕ) → p.ok j ≡ true)
    → 0 < s.msghub
    → s.msghub < notify_medium
    → (t : Listener) × ((on_hub p s ≡ running t)
        × (t.written ≡ s.written ++ s.msgs)
        × (t.msgs ≡ [])
        × (t.msghub ≡ 0))
on_hub-written p s ok h k =
    let u : Listener = record s { msghub = 0; msgs = [] } in
    let done = write_all-written p.ok 0 s.msgs u ok in
    (write_all p.ok 0 s.msgs u, (hub_step, done.0, done.1, done.2))
  where
    hub_step : on_hub p s ≡ running (write_all p.ok 0 s.msgs (record s { msghub = 0; msgs = [] }))
    hub_step = unfold on_hub writer_write in ground arith
