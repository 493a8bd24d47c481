-- ===== src/Relay/StepTests.antt =====
-- Concrete steps of the notifier, the reader, the collector, its connection, and the logger.
use c_playground.Common.{
  ℕ, ◌+◌, ◌*◌, ◌^◌, ◌<◌, ◌≡◌, refl, inl, Bool, true, false, none, List, [], ◌∷◌, ◌++◌, codes,
  length, arith,
}
use c_playground.Relay.Text.{decimal_digits}
use c_playground.Relay.Codec.{Data, Output, retrieve_topic}
use c_playground.Relay.Secure.{encrypt, data_bytes}
use c_playground.Relay.Notifier.{
  Notifier, Work, consumers, same_text, put_topic, subscribe, accepting, has_key, register_consumer,
  is_empty, erase_invalid, promotes, elem, take_up, offer_tasks, offer, return_valid, call_tasks,
  has_consumers, publish_table, deliver, idle_notifier,
}
use c_playground.Relay.Notifier.Publishing.{deliver-publish_table}
use c_playground.Relay.Notifier.Interleaving.{
  Turns, rests, registers, takes, answers, puts, holds, Turns-holds,
}
use c_playground.Relay.Reader.{handle_message, piped}
use c_playground.Relay.Reader.Pipe.{
  Pipes, opens, handles, IsAligned, Pipes-IsAligned, handle_message-encrypt, frames_arrive,
  read_all, records, read_all-frames_arrive,
}
use c_playground.Relay.Reader.Missed.{handle_message-take_up}

abbrev topic_182 : List ℕ
topic_182 = codes "182"

abbrev news : Output
news = record { payload = codes "{}"; topic = topic_182 }

abbrev one_consumer : Notifier
one_consumer = register_consumer 7 (topic_182 ∷ []) idle_notifier

abbrev taken_up : Notifier
taken_up = take_up news one_consumer

abbrev joined : Notifier
joined = register_consumer 8 (topic_182 ∷ []) taken_up

abbrev in_hand : Work
in_hand = record { output = news; tasks = 0 ∷ []; valid = [] }

abbrev answered : Notifier
answered = offer true joined joined.work

abbrev finished : Notifier
finished = return_valid answered answered.work

joined_turns : Turns 0 one_consumer joined
unfolding register_consumer take_up has_key
joined_turns = registers 8 (topic_182 ∷ []) (takes news refl rests)

finished_turns : Turns 0 one_consumer finished
unfolding register_consumer take_up offer offer_tasks put_topic subscribe consumers same_text
    has_key is_empty erase_invalid promotes elem
finished_turns =
    puts (record in_hand { tasks = []; valid = 0 ∷ [] }) refl refl
      (answers true in_hand 0 [] refl refl (inl refl) joined_turns)

made_one : 0 < one_consumer.made
unfolding register_consumer has_key
made_one = omega arith

Turns-holds_example : holds topic_182 0 finished ≡ holds topic_182 0 one_consumer
Turns-holds_example = Turns-holds 0 topic_182 one_consumer finished made_one finished_turns

-- The consumer that joined meanwhile stands before the one that was called.
finished_order : consumers topic_182 finished.table ≡ 1 ∷ 0 ∷ []
unfolding register_consumer take_up offer offer_tasks return_valid put_topic subscribe consumers
    same_text has_key is_empty erase_invalid promotes elem
finished_order = refl

idle_one : one_consumer.work ≡ none
unfolding register_consumer has_key
idle_one = refl

abbrev all_accept : ℕ → Bool
all_accept c = true

deliver-publish_table_example :
    consumers topic_182 (deliver news all_accept one_consumer).table
    ≡ consumers topic_182 (publish_table topic_182 all_accept one_consumer.table)
deliver-publish_table_example =
    deliver-publish_table all_accept news one_consumer idle_one topic_182

abbrev record_182 : Data
record_182 = record { a = 5; b = 182 * 2 ^ 48 + 179 }

is_topic : topic_182 ≡ retrieve_topic record_182.b
unfolding retrieve_topic decimal_digits
is_topic = refl

accepted_one : is_empty (accepting all_accept (consumers topic_182 one_consumer.table)) ≡ false
unfolding register_consumer has_key subscribe put_topic consumers same_text accepting is_empty
accepted_one = refl

handle_message-take_up_example :
    (handle_message
        (λ t. has_consumers t (call_tasks all_accept (0 ∷ []) (take_up news one_consumer)))
        []
        (encrypt 9 (data_bytes record_182))
      ≡ piped [])
    × (handle_message
          (λ t. has_consumers t (deliver news all_accept one_consumer))
          []
          (encrypt 9 (data_bytes record_182))
        ≡ piped ([] ++ data_bytes record_182))
handle_message-take_up_example =
    handle_message-take_up 9 record_182 [] (omega arith, omega arith) news all_accept (0 ∷ [])
      one_consumer is_topic idle_one accepted_one (omega arith)

abbrev every_topic : List ℕ → Bool
every_topic t = true

abbrev two_frames : List (ℕ × Data)
two_frames = (9, record_182) ∷ (200, record { a = 6; b = 7 }) ∷ []

read_all-frames_arrive_example :
    read_all (length two_frames) (frames_arrive every_topic two_frames []) ≡ records two_frames
read_all-frames_arrive_example =
    read_all-frames_arrive every_topic two_frames
      (((omega arith, omega arith), refl), (((omega arith, omega arith), refl), tt)) (omega arith)

one_frame : Pipes ([] ++ data_bytes record_182)
one_frame =
    handles every_topic (encrypt 9 (data_bytes record_182)) []
      (handle_message-encrypt every_topic 9 record_182 [] ((omega arith, omega arith), refl)
        (omega arith))
      opens

Pipes-IsAligned_example : IsAligned ([] ++ data_bytes record_182)
Pipes-IsAligned_example = Pipes-IsAligned ([] ++ data_bytes record_182) one_frame
