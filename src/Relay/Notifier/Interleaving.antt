-- ===== src/Relay/Notifier/Interleaving.antt =====
-- Registrations and publications in any order: which consumers a topic keeps.
use c_playground.Common.{
  ℕ, suc, ◌+◌, ◌<◌, ◌≡◌, ◌≢◌, ◌⊎◌, refl, ap, sym, ◌∙◌, Bool, true, false, Option, none, some, List,
  [], ◌∷◌, ◌++◌, ◌==◌, ne→==, if◌then◌else◌, if_intro, Bool-cases, inl, inr, arith,
}
use c_playground.Relay.Codec.{Output}
use c_playground.Relay.Notifier.{
  Table, Work, Notifier, same_text, consumers, put_topic, subscribe, has_key, register_consumer,
  is_empty, take_up, offer_tasks, offer, return_valid,
}
use c_playground.Relay.Notifier.Tables.{same_text→eq, consumers_assigned, is_empty→nil}

unfoldable pub copies : ℕ → List ℕ → ℕ
copies c [] = 0
copies c (d ∷ ds) = let rest = copies c ds in if c == d then suc rest else rest

-- Copies on their way, when the message in hand is of the topic.
unfoldable pub copies_out : List ℕ → ℕ → Option Work → ℕ
copies_out topic c none = 0
copies_out topic c (some w) =
    if same_text topic w.output.topic then copies c w.tasks + copies c w.valid else 0

-- How often a consumer stands under a topic, in the table and on its way.
unfoldable pub holds : List ℕ → ℕ → Notifier → ℕ
holds topic c n = copies c (consumers topic n.table) + copies_out topic c n.work

-- What happens to a notifier, one critical section or one call of a consumer at a time, where the
-- consumer `c` never answers `false`.
pub data Turns (c : ℕ) (n : Notifier) : Notifier → Type 0 where
  rests : Turns c n n
  registers :
      (key : ℕ) (topics : List (List ℕ)) {m : Notifier}
      → Turns c n m
      → Turns c n (register_consumer key topics m)
  takes : (out : Output) {m : Notifier} → m.work ≡ none → Turns c n m → Turns c n (take_up out m)
  answers :
      (b : Bool) (w : Work) (d : ℕ) (ds : List ℕ) {m : Notifier}
      → m.work ≡ some w
      → w.tasks ≡ d ∷ ds
      → (b ≡ true) ⊎ (c ≢ d)
      → Turns c n m
      → Turns c n (offer b m m.work)
  puts :
      (w : Work) {m : Notifier}
      → m.work ≡ some w
      → w.tasks ≡ []
      → Turns c n m
      → Turns c n (return_valid m m.work)

copies-append : (c : ℕ) (xs ys : List ℕ) → copies c (xs ++ ys) ≡ copies c xs + copies c ys
unfolding copies
copies-append c [] ys = omega arith
copies-append c (x ∷ xs) ys =
    ap (λ r. if c == x then suc r else r) (copies-append c xs ys) ∙ shared (c == x)
  where
    shared :
        (b : Bool)
        → (if b then suc (copies c xs + copies c ys) else copies c xs + copies c ys)
          ≡ (if b then suc (copies c xs) else copies c xs) + copies c ys
    shared true = omega arith
    shared false = omega arith

one_copy : (c d : ℕ) → (c == d) ≡ true → copies c (d ∷ []) ≡ 1
unfolding copies
one_copy c d h = rw h refl

no_copy : (c d : ℕ) → (c == d) ≡ false → copies c (d ∷ []) ≡ 0
unfolding copies
no_copy c d h = rw h refl

copies_other : (c d : ℕ) (xs : List ℕ) → c ≢ d → copies c (xs ++ (d ∷ [])) ≡ copies c xs
unfolding copies
copies_other c d xs h = copies-append c xs (d ∷ []) ∙ rw (ne→== c d h) (omega arith)

-- Another consumer's subscription.
copies-subscribe :
    (t : List ℕ) (c d : ℕ) (topics : List (List ℕ)) (table : Table)
    → c ≢ d
    → copies c (consumers t (subscribe topics d table)) ≡ copies c (consumers t table)
unfolding subscribe
copies-subscribe t c d [] table h = refl
copies-subscribe t c d (topic ∷ topics) table h =
    let pushed = consumers topic table ++ (d ∷ []) in
    copies-subscribe t c d topics (put_topic topic pushed table) h
    ∙ ap (copies c) (consumers_assigned t topic pushed table)
    ∙ elim (Bool-cases (same_text t topic)) [
      | inl e ↦ rw e (
          copies_other c d (consumers topic table) h
          ∙ ap (λ x. copies c (consumers x table)) (sym (same_text→eq t topic e)))
      | inr e ↦ rw e refl
    ]

holds-register_consumer :
    (t : List ℕ) (c key : ℕ) (topics : List (List ℕ)) (n : Notifier)
    → c < n.made
    → holds t c (register_consumer key topics n) ≡ holds t c n
unfolding holds register_consumer
holds-register_consumer t c key topics n h =
    if_intro (λ (m : Notifier). holds t c m ≡ holds t c n) (has_key key n.subscriber) (λ _. refl)
      (λ _.
        ap (λ k. k + copies_out t c n.work)
          (copies-subscribe t c n.made topics n.table (omega arith)))

holds-take_up :
    (t : List ℕ) (c : ℕ) (out : Output) (n : Notifier)
    → n.work ≡ none
    → holds t c (take_up out n) ≡ holds t c n
unfolding holds take_up copies_out copies
holds-take_up t c out n h =
    if_intro (λ (m : Notifier). holds t c m ≡ holds t c n) (is_empty (consumers out.topic n.table))
      (λ _. refl)
      (λ _.
        ap
          (λ k.
            k
            + copies_out t c
                (some (record { output = out; tasks = consumers out.topic n.table; valid = [] })))
          (ap (copies c) (consumers_assigned t out.topic [] n.table))
        ∙ elim (Bool-cases (same_text t out.topic)) [
          | inl e ↦
              rw (e, h)
                (omega
                  (arith, ap (λ x. copies c (consumers x n.table)) (same_text→eq t out.topic e)))
          | inr e ↦ rw (e, h) (omega arith)
        ])

copies-answered :
    (c d : ℕ) (b : Bool) (ds v : List ℕ)
    → (b ≡ true) ⊎ (c ≢ d)
    → copies c ds + copies c (if b then v ++ (d ∷ []) else v) ≡ copies c (d ∷ ds) + copies c v
unfolding copies
copies-answered c d true ds v h =
    if_intro (λ (x : ℕ). copies c ds + copies c (v ++ (d ∷ [])) ≡ x + copies c v) (c == d)
      (λ e. omega (arith, copies-append c v (d ∷ []), one_copy c d e))
      (λ e. omega (arith, copies-append c v (d ∷ []), no_copy c d e))
copies-answered c d false ds v (inl e) = absurd (ground (arith, e))
copies-answered c d false ds v (inr h) = rw (ne→== c d h) refl

holds-offer :
    (t : List ℕ) (c : ℕ) (b : Bool) (w : Work) (d : ℕ) (ds : List ℕ) (n : Notifier)
    → n.work ≡ some w
    → w.tasks ≡ d ∷ ds
    → (b ≡ true) ⊎ (c ≢ d)
    → holds t c (offer b n n.work) ≡ holds t c n
unfolding holds offer offer_tasks copies_out
holds-offer t c b w d ds n h k ans =
    rw (h, k)
      (ap (λ x. copies c (consumers t n.table) + (if same_text t w.output.topic then x else 0))
        (copies-answered c d b ds w.valid ans))

holds-return_valid :
    (t : List ℕ) (c : ℕ) (w : Work) (n : Notifier)
    → n.work ≡ some w
    → w.tasks ≡ []
    → holds t c (return_valid n n.work) ≡ holds t c n
unfolding holds return_valid copies_out copies
holds-return_valid t c w n h k =
    let topic = w.output.topic in
    let left : copies c w.tasks + copies c w.valid ≡ copies c w.valid =
      omega (arith, ap (copies c) k) in
    let out : copies_out t c (some w) ≡ (if same_text t topic then copies c w.valid else 0) =
      ap (λ x. if same_text t topic then x else 0) left in
    rw h (
      if_intro
        (λ (m : Notifier). holds t c m ≡ copies c (consumers t n.table) + copies_out t c (some w))
        (is_empty w.valid)
        (λ e.
          ap (λ x. copies c (consumers t n.table) + x)
            (sym (
              out
              ∙ ap (λ x. if same_text t topic then copies c x else 0) (is_empty→nil w.valid e)
              ∙ either (same_text t topic))))
        (λ _.
          ap (λ x. x + 0)
            (ap (copies c)
              (consumers_assigned t topic (consumers topic n.table ++ w.valid) n.table))
          ∙ elim (Bool-cases (same_text t topic)) [
            | inl e ↦
                rw (out, e)
                  (omega (
                    arith,
                    copies-append c (consumers topic n.table) w.valid,
                    ap (λ x. copies c (consumers x n.table)) (same_text→eq t topic e),
                  ))
            | inr e ↦ rw (out, e) refl
          ]))
  where
    either : (b : Bool) → ◌≡◌ {A = ℕ} (if b then 0 else 0) 0
    either true = refl
    either false = refl

made_grows : (c : ℕ) {n m : Notifier} → c < n.made → Turns c n m → c < m.made
unfolding register_consumer take_up offer return_valid
made_grows c h rests = h
made_grows c h (registers key topics {m} r) =
    if_intro (λ (x : Notifier). c < x.made) (has_key key m.subscriber) (λ _. made_grows c h r)
      (λ _. omega (arith, made_grows c h r))
made_grows c h (takes out {m} e r) =
    if_intro (λ (x : Notifier). c < x.made) (is_empty (consumers out.topic m.table))
      (λ _. made_grows c h r) (λ _. made_grows c h r)
made_grows c h (answers b w d ds {m} e k a r) = rw e (made_grows c h r)
made_grows c h (puts w {m} e k r) = rw e (
    if_intro (λ (x : Notifier). c < x.made) (is_empty w.valid) (λ _. made_grows c h r)
      (λ _. made_grows c h r))

-- Whatever registrations and publications come in between, a consumer that exists and that never
-- answers `false` stands under each topic as often as before, in the table or on its way back to it.
pub Turns-holds :
    (c : ℕ) (t : List ℕ) (n m : Notifier) → c < n.made → Turns c n m → holds t c m ≡ holds t c n
Turns-holds c t n m h rests = refl
Turns-holds c t n m h (registers key topics {m = x} r) =
    holds-register_consumer t c key topics x (made_grows c h r) ∙ Turns-holds c t n x h r
Turns-holds c t n m h (takes out {m = x} e r) = holds-take_up t c out x e ∙ Turns-holds c t n x h r
Turns-holds c t n m h (answers b w d ds {m = x} e k a r) =
    holds-offer t c b w d ds x e k a ∙ Turns-holds c t n x h r
Turns-holds c t n m h (puts w {m = x} e k r) =
    holds-return_valid t c w x e k ∙ Turns-holds c t n x h r
