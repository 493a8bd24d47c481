-- ===== src/Relay/Notifier.antt =====
-- The notifier: notifier.h and notifier.cpp, the topics' consumers, registration and publication.
pub mod Tables
pub mod Publishing
pub mod Interleaving
use c_playground.Common.{
  ℕ, zero, suc, ◌+◌, Bool, true, false, not, ◌&&◌, ◌||◌, Option, none, some, List, [], ◌∷◌, ◌++◌,
  ◌==◌, ltb, if◌then◌else◌, length,
}
use c_playground.Relay.Codec.{Output}

-- Equality of two strings.
unfoldable pub same_text : List ℕ → List ℕ → Bool
same_text [] [] = true
same_text [] (b ∷ t) = false
same_text (a ∷ s) [] = false
same_text (a ∷ s) (b ∷ t) = (a == b) && same_text s t

-- `table_`: the consumers of each topic, in the order of their subscription. A consumer is the number
-- of its allocation, which its shared pointers share.
abbrev pub Table : Type 0
Table = List (List ℕ × List ℕ)

-- table_[topic], empty when there was none.
unfoldable pub consumers : List ℕ → Table → List ℕ
consumers topic [] = []
consumers topic (row ∷ rows) = if same_text topic row.0 then row.1 else consumers topic rows

-- table_[topic] = v
unfoldable pub put_topic : List ℕ → List ℕ → Table → Table
put_topic topic v [] = (topic, v) ∷ []
put_topic topic v (row ∷ rows) =
    let rest = put_topic topic v rows in
    if same_text topic row.0 then (row.0, v) ∷ rows else row ∷ rest

-- table_[topic].push_back(ptr) for each topic
unfoldable pub subscribe : List (List ℕ) → ℕ → Table → Table
subscribe [] c table = table
subscribe (topic ∷ topics) c table =
    subscribe topics c (put_topic topic (consumers topic table ++ (c ∷ [])) table)

-- The consumers that answered `true`.
unfoldable pub accepting : (ℕ → Bool) → List ℕ → List ℕ
accepting accepts [] = []
accepting accepts (c ∷ cs) = let rest = accepting accepts cs in if accepts c then c ∷ rest else rest

-- `TopicManager::publish`, with the answers of the consumers.
unfoldable pub publish_table : List ℕ → (ℕ → Bool) → Table → Table
publish_table topic accepts table =
    put_topic topic (accepting accepts (consumers topic table)) table

-- A message on its way to the consumers that were swapped out of the table.
pub record Work : Type 0 where
  pub output : Output
  pub tasks : List ℕ
  pub valid : List ℕ

pub record Notifier : Type 0 where
  pub table : Table
  pub subscriber : List (ℕ × ℕ)
  pub made : ℕ
  pub work : Option Work

unfoldable pub has_key : ℕ → List (ℕ × ℕ) → Bool
has_key key [] = false
has_key key (row ∷ rows) = (key == row.0) || has_key key rows

-- `Register`, under the lock.
unfoldable pub register_consumer : (key : ℕ) → List (List ℕ) → Notifier → Notifier
register_consumer key topics n = if has_key key n.subscriber then n else record n {
  table = subscribe topics n.made n.table;
  subscriber = n.subscriber ++ ((key, n.made) ∷ []);
  made = suc n.made;
}

unfoldable pub elem : ℕ → List ℕ → Bool
elem c [] = false
elem c (d ∷ ds) = (c == d) || elem c ds

-- A weak pointer can be promoted: some topic holds the consumer.
unfoldable pub promotes : ℕ → Table → Bool
promotes c [] = false
promotes c (row ∷ rows) = elem c row.1 || promotes c rows

unfoldable pub erase_invalid : Table → List (ℕ × ℕ) → List (ℕ × ℕ)
erase_invalid table [] = []
erase_invalid table (row ∷ rows) =
    let rest = erase_invalid table rows in if promotes row.1 table then row ∷ rest else rest

unfoldable pub is_empty : List ℕ → Bool
is_empty [] = true
is_empty (c ∷ cs) = false

-- `Run`, the block under the first lock: the dead keys go, and the consumers of the topic are swapped out.
unfoldable pub take_up : Output → Notifier → Notifier
take_up output n =
    let tidy = record n { subscriber = erase_invalid n.table n.subscriber } in
    if is_empty (consumers output.topic n.table) then tidy else record tidy {
      table = put_topic output.topic [] n.table;
      work = some (record { output = output; tasks = consumers output.topic n.table; valid = [] });
    }

-- One turn of the publication: the next consumer is called, and answers.
unfoldable pub offer_tasks : Bool → Work → List ℕ → Work
offer_tasks b w [] = w
offer_tasks b w (c ∷ cs) = record w {
  tasks = cs;
  valid = if b then w.valid ++ (c ∷ []) else w.valid;
}

unfoldable pub offer : Bool → Notifier → Option Work → Notifier
offer b n none = n
offer b n (some w) = record n { work = some (offer_tasks b w w.tasks) }

-- The end of the turn, under the second lock: the valid consumers go behind those subscribed meanwhile.
unfoldable pub return_valid : Notifier → Option Work → Notifier
return_valid n none = n
return_valid n (some w) =
    let idle = record n { work = none } in
    if is_empty w.valid then idle else record idle {
      table = put_topic w.output.topic (consumers w.output.topic n.table ++ w.valid) n.table;
    }

-- The filter that the notifier gives its reader: there is a consumer of the topic.
unfoldable pub has_consumers : List ℕ → Notifier → Bool
has_consumers topic n = not (is_empty (consumers topic n.table))

-- The publication of one message with no registration meanwhile: the consumers are called one by one.
unfoldable pub call_tasks : (ℕ → Bool) → List ℕ → Notifier → Notifier
call_tasks accepts [] n = n
call_tasks accepts (c ∷ cs) n = call_tasks accepts cs (offer (accepts c) n n.work)

unfoldable pub tasks_of : Option Work → List ℕ
tasks_of none = []
tasks_of (some w) = w.tasks

unfoldable pub deliver : Output → (ℕ → Bool) → Notifier → Notifier
deliver output accepts n =
    let taken = take_up output n in
    let called = call_tasks accepts (tasks_of taken.work) taken in return_valid called called.work

abbrev pub idle_notifier : Notifier
idle_notifier = record { table = []; subscriber = []; made = 0; work = none }
