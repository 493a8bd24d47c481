-- ===== src/Relay/Notifier/Publishing.antt =====
-- The publication of one message, against `TopicManager::publish`.
use c_playground.Common.{
  ℕ, ◌≡◌, refl, ap, sym, ◌∙◌, Bool, true, false, none, some, List, [], ◌∷◌, ◌++◌, append_assoc,
  append-nil, if◌then◌else◌, if_intro,
}
use c_playground.Relay.Codec.{Output}
use c_playground.Relay.Notifier.{
  Table, Notifier, same_text, consumers, put_topic, accepting, publish_table, erase_invalid,
  is_empty, take_up, offer_tasks, offer, return_valid, call_tasks, tasks_of, deliver,
}
use c_playground.Relay.Notifier.Tables.{
  put_topic_same, is_empty→nil, consumers_assigned, consumers-put_topic,
}

if_append :
    (b : Bool) (v r : List ℕ) (c : ℕ)
    → (if b then v ++ (c ∷ []) else v) ++ r ≡ v ++ (if b then c ∷ r else r)
if_append true v r c = append_assoc v (c ∷ []) r
if_append false v r c = refl

module _ (accepts : ℕ → Bool) where
  call_all-accepting :
      (cs v : List ℕ) (o : Output) (n : Notifier)
      → call_tasks accepts cs
          (record n { work = some (record { output = o; tasks = cs; valid = v }) })
        ≡ record n {
          work = some (record { output = o; tasks = []; valid = v ++ accepting accepts cs });
        }
  unfolding call_tasks offer offer_tasks accepting
  call_all-accepting [] v o n =
      ap (λ r. record n { work = some (record { output = o; tasks = []; valid = r }) })
        (sym (append-nil v))
  call_all-accepting (c ∷ cs) v o n =
      call_all-accepting cs (if accepts c then v ++ (c ∷ []) else v) o n
      ∙ ap (λ r. record n { work = some (record { output = o; tasks = []; valid = r }) })
          (if_append (accepts c) v (accepting accepts cs) c)

  -- The publication from the swap on.
  abbrev finish_publishing : Notifier → Notifier
  finish_publishing m =
      let called = call_tasks accepts (tasks_of m.work) m in return_valid called called.work

  finish_idle : (m : Notifier) → m.work ≡ none → finish_publishing m ≡ m
  unfolding call_tasks tasks_of return_valid
  finish_idle m h = rw h refl

  consumers-return_valid :
      (v : List ℕ) (n : Notifier) (o : Output) (s : List ℕ)
      → consumers s (return_valid n (some (record { output = o; tasks = []; valid = v }))).table
        ≡ consumers s (put_topic o.topic (consumers o.topic n.table ++ v) n.table)
  unfolding return_valid
  consumers-return_valid v n o s =
      if_intro
        (λ (m : Notifier).
          consumers s m.table
          ≡ consumers s (put_topic o.topic (consumers o.topic n.table ++ v) n.table))
        (is_empty v)
        (λ e. sym (
          put_topic_same s o.topic (consumers o.topic n.table ++ v) n.table (
            sym (append-nil (consumers o.topic n.table))
            ∙ ap (λ r. consumers o.topic n.table ++ r) (sym (is_empty→nil v e)))))
        (λ _. refl)

  put_topic_twice :
      (s t v : List ℕ) (table : Table)
      → consumers s (put_topic t (consumers t (put_topic t [] table) ++ v) (put_topic t [] table))
        ≡ consumers s (put_topic t v table)
  put_topic_twice s t v table = rw (consumers-put_topic t [] table) (
      consumers_assigned s t v (put_topic t [] table)
      ∙ twice (same_text s t) v _ (consumers s table) (consumers_assigned s t [] table)
      ∙ sym (consumers_assigned s t v table))
    where
      twice :
          (b : Bool) (v x y : List ℕ)
          → x ≡ (if b then [] else y)
          → (if b then v else x) ≡ (if b then v else y)
      twice true v x y h = refl
      twice false v x y h = h

  -- A message that is published with no registration meanwhile leaves each topic the consumers that
  -- `TopicManager::publish` leaves: of the message's topic those that answered `true`, in their order.
  pub deliver-publish_table :
      (out : Output) (n : Notifier)
      → n.work ≡ none
      → (s : List ℕ)
      → consumers s (deliver out accepts n).table
        ≡ consumers s (publish_table out.topic accepts n.table)
  unfolding deliver take_up publish_table accepting tasks_of
  deliver-publish_table out n h s =
      let tidy = record n { subscriber = erase_invalid n.table n.subscriber } in
      let cs = consumers out.topic n.table in
      if_intro
        (λ (m : Notifier).
          consumers s (finish_publishing m).table
          ≡ consumers s (publish_table out.topic accepts n.table))
        (is_empty (consumers out.topic n.table))
        (λ b.
          ap (λ m. consumers s m.table) (finish_idle tidy h)
          ∙ sym (
              put_topic_same s out.topic (accepting accepts cs) n.table
                (is_empty→nil cs b ∙ ap (accepting accepts) (sym (is_empty→nil cs b)))))
        (λ _.
          ap (λ m. consumers s (return_valid m m.work).table)
            (call_all-accepting cs [] out (record tidy { table = put_topic out.topic [] n.table }))
          ∙ consumers-return_valid (accepting accepts cs) _ out s
          ∙ put_topic_twice s out.topic (accepting accepts cs) n.table)
