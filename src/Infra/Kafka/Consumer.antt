-- ===== src/Infra/Kafka/Consumer.antt =====
-- internal/infra/kafka/consumer.go: the loop of a worker over the messages of its group.
pub mod Laws
pub mod Retry
use ragkb.Base.{
  ℕ, ℤ, zero, suc, ◌+◌, ◌*◌, ◌^◌, ◌≡◌, ◌≤◌, ◌⊎◌, Bool, true, false, Option, some, none, List, [],
  ◌∷◌, String, if◌then◌else◌,
}
use ragkb.Text.{Text, lit}
use ragkb.Fault.{Error, wrapped, is_canceled, message}
use ragkb.Action.{Result, ok, Action, attempt, pure, fail, map_error, ◌>>=◌, ◌>>◌}
use ragkb.Json.{Value, text, number, marshal}
use ragkb.Config.{KafkaConfig}
use ragkb.Infra.Kafka.{WriterConfig, least_bytes}
use ragkb.Service.Documents.Ports.{Message}

-- kafka.Message, as it is fetched.
pub record KafkaMessage : Type 0 where
  pub topic : Text
  pub partition : ℤ
  pub offset : ℤ
  pub key : Text
  pub value : Text

-- What is set of a kafka.ReaderConfig.
pub record ReaderConfig : Type 0 where
  pub brokers : List Text
  pub topic : Text
  pub group_id : Text

-- The reader of a consumer, and the writer of its dead letters.
unfoldable pub new_consumer : KafkaConfig → ReaderConfig × WriterConfig
new_consumer cfg = (
  record { brokers = cfg.brokers; topic = cfg.topic; group_id = cfg.group_id },
  record { brokers = cfg.brokers; topic = cfg.dlq_topic; balancer = least_bytes },
)

-- What a consumer calls, over the states `S` of the brokers, the handler and the clock.
pub record Calls (S : Type 0) : Type 0 where
  -- FetchMessage blocks: there is no message, and the context has not ended.
  pub waits : S → Bool
  -- What it does where it does not block
  pub fetch_message : Action S KafkaMessage
  pub commit_messages : KafkaMessage → Action S (Unit {0})
  pub handle : KafkaMessage → Action S (Unit {0})
  -- The writer of the dead letters
  pub write_messages : Message → Action S (Unit {0})
  -- Waits for a timer of so many nanoseconds, or fails with the error of a context that ends first
  pub wait : ℕ → Action S (Unit {0})
  -- The time in RFC 3339
  pub now : S → Text
  pub close_reader : Action S (Unit {0})
  pub close_writer : Action S (Unit {0})

-- The dead letter of a message: json.Marshal puts the keys of a map in order.
unfoldable pub dead_letter_fields : KafkaMessage → Error → Text → List (String × Value)
dead_letter_fields msg cause failed_at =
    ("error", text (message cause))
    ∷ ("failed_at", text failed_at)
    ∷ ("key", text msg.key)
    ∷ ("offset", number msg.offset)
    ∷ ("partition", number msg.partition)
    ∷ ("topic", text msg.topic)
    ∷ ("value", text msg.value)
    ∷ []

abbrev pub dead_letter : KafkaMessage → Error → Text → Message
dead_letter msg cause failed_at = record {
  key = msg.key;
  value = marshal (dead_letter_fields msg cause failed_at);
}

module _ {S : Type 0} (c : Calls S) where
  unfoldable pub sleep_retry : ℕ → Action S (Unit {0})
  sleep_retry attempt_no = c.wait (500 * 2 ^ attempt_no * 10 ^ 6)

  -- The loop of `handleWithRetry` from an attempt, with `n` rounds left.
  unfoldable pub handle_from : KafkaMessage → ℕ → ℕ → Option Error → Action S (Unit {0})
  handle_from msg attempt_no zero none = pure tt
  handle_from msg attempt_no zero (some last) = fail last
  handle_from msg attempt_no (suc n) last_err =
      attempt (c.handle msg) pure
        λ e. sleep_retry attempt_no >> handle_from msg (suc attempt_no) n (some e)

  unfoldable pub handle_with_retry : KafkaMessage → Action S (Unit {0})
  handle_with_retry msg = handle_from msg 0 3 none

  unfoldable pub publish_dlq : KafkaMessage → Error → Action S (Unit {0})
  publish_dlq msg cause s = c.write_messages (dead_letter msg cause (c.now s)) s

  -- A message is handled, or else a dead letter is written.
  unfoldable pub settle : KafkaMessage → Action S (Unit {0})
  settle msg =
      attempt (handle_with_retry msg) pure
        λ e. map_error (wrapped (lit "publish dlq: ")) (publish_dlq msg e)

  -- The error of a commit is logged, and the loop goes on.
  unfoldable pub commit : KafkaMessage → Action S Bool
  commit msg = attempt (c.commit_messages msg) (λ _. pure true) (λ _. pure true)

  -- A round of `Run` whose fetch returns: whether the loop goes on.
  unfoldable pub fetched_round : Action S Bool
  fetched_round =
      attempt c.fetch_message (λ msg. settle msg >> commit msg)
        λ e. if is_canceled e then pure false else fail e

  -- A round of `Run`; one that waits is still there.
  unfoldable pub round : Action S Bool
  unfolding fetched_round
  round s = if c.waits s then (ok true, s) else fetched_round s

  -- `Run` for at most `n` rounds: whether it is still running.
  unfoldable pub run : ℕ → Action S Bool
  run zero = pure true
  run (suc n) = round >>= λ more. if more then run n else pure false

  unfoldable pub close : Action S (Unit {0})
  close =
      attempt c.close_reader (λ _. c.close_writer)
        λ e. attempt c.close_writer (λ _. fail e) (λ _. fail e)
