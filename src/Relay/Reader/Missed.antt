-- ===== src/Relay/Reader/Missed.antt =====
-- The filter of the reader while the notifier publishes, and after it.
use c_playground.Common.{
  ℕ, ◌<◌, ◌≡◌, refl, ap, sym, ◌∙◌, Bool, false, not, Option, none, some, List, [], ◌∷◌, ◌++◌,
  if_intro, length,
}
use c_playground.Relay.Codec.{Data, Output, retrieve_topic}
use c_playground.Relay.Secure.{encrypt, data_bytes}
use c_playground.Relay.Secure.RoundTrip.{IsData, decrypt-encrypt, bytes_data-data_bytes}
use c_playground.Relay.Notifier.{
  Notifier, consumers, accepting, is_empty, take_up, has_consumers, publish_table, deliver, Work,
  offer, call_tasks,
}
use c_playground.Relay.Notifier.Tables.{consumers-put_topic}
use c_playground.Relay.Notifier.Publishing.{deliver-publish_table}
use c_playground.Relay.Reader.{piped, handle_record, handle_message}
use c_playground.Relay.Reader.Pipe.{handle_message-encrypt}

has_consumers-take_up :
    (out : Output) (n : Notifier) → has_consumers out.topic (take_up out n) ≡ false
unfolding has_consumers take_up is_empty
has_consumers-take_up out n =
    if_intro (λ (m : Notifier). not (is_empty (consumers out.topic m.table)) ≡ false)
      (is_empty (consumers out.topic n.table)) (λ e. ap not e)
      (λ _. ap (λ s. not (is_empty s)) (consumers-put_topic out.topic [] n.table))

offer-table : (b : Bool) (n : Notifier) (w : Option Work) → (offer b n w).table ≡ n.table
unfolding offer
offer-table b n none = refl
offer-table b n (some w) = refl

-- The calls of the consumers leave the table alone.
call_tasks-table :
    (accepts : ℕ → Bool) (cs : List ℕ) (n : Notifier) → (call_tasks accepts cs n).table ≡ n.table
unfolding call_tasks
call_tasks-table accepts [] n = refl
call_tasks-table accepts (c ∷ cs) n =
    call_tasks-table accepts cs (offer (accepts c) n n.work) ∙ offer-table (accepts c) n n.work

module _ (m : ℕ) (d : Data) (pipe : List ℕ) (h : IsData d) where
  handle_message_unwanted :
      (filter : List ℕ → Bool)
      → filter (retrieve_topic d.b) ≡ false
      → handle_message filter pipe (encrypt m (data_bytes d)) ≡ piped pipe
  unfolding handle_message handle_record
  handle_message_unwanted filter w =
      ap (handle_record filter pipe) (decrypt-encrypt m d) ∙ rw (bytes_data-data_bytes d h, w) refl

  -- From the moment that the notifier takes a message up, with any calls of consumers made since and no
  -- registration, until it puts the consumers back, a record of the same topic is dropped by the reader; behind
  -- that, when the calls were all made and a consumer has accepted and the pipe has room, it goes on.
  pub handle_message-take_up :
      (out : Output) (accepts : ℕ → Bool) (calls : List ℕ) (n : Notifier)
      → out.topic ≡ retrieve_topic d.b
      → n.work ≡ none
      → is_empty (accepting accepts (consumers out.topic n.table)) ≡ false
      → length pipe < 128
      → (handle_message
            (λ t. has_consumers t (call_tasks accepts calls (take_up out n)))
            pipe
            (encrypt m (data_bytes d))
          ≡ piped pipe)
        × (handle_message
              (λ t. has_consumers t (deliver out accepts n))
              pipe
              (encrypt m (data_bytes d))
            ≡ piped (pipe ++ data_bytes d))
  unfolding has_consumers publish_table
  handle_message-take_up out accepts calls n e idle some_accepts room = (
    handle_message_unwanted (λ t. has_consumers t (call_tasks accepts calls (take_up out n)))
        (ap (λ t. has_consumers t (call_tasks accepts calls (take_up out n))) (sym e)
          ∙ ap (λ table. not (is_empty (consumers out.topic table)))
              (call_tasks-table accepts calls (take_up out n))
          ∙ has_consumers-take_up out n),
    handle_message-encrypt (λ t. has_consumers t (deliver out accepts n)) m d pipe
        (
          h,
          ap (λ t. has_consumers t (deliver out accepts n)) (sym e)
              ∙ ap (λ s. not (is_empty s))
                  (deliver-publish_table accepts out n idle out.topic
                    ∙ consumers-put_topic out.topic
                        (accepting accepts (consumers out.topic n.table)) n.table)
              ∙ ap not some_accepts,
        )
        room,
  )
