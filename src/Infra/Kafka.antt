-- ===== src/Infra/Kafka.antt =====
-- The writer of kafka-go, and internal/infra/kafka/producer.go over it.
pub mod Consumer
use ragkb.Base.{◌≡◌, List, [], ◌∷◌, ◌++◌, arith}
use ragkb.Text.{Text, lit}
use ragkb.Fault.{wrapped}
use ragkb.Action.{ok, Action, map_error}
use ragkb.Config.{KafkaConfig}
use ragkb.Service.Documents.Ports.{Message, EventPublisher}

-- A writer is bound to a topic; the library is not part of the repository, so the call that writes
-- one message is a parameter over the states `S` of the brokers.
pub record Writer (S : Type 0) : Type 0 where
  -- The messages of the topic, the oldest first.
  pub log : S → List Message
  pub write_messages : Message → Action S (Unit {0})
  pub write_messages_ok :
      (m : Message) (s s' : S) (u : Unit {0})
      → write_messages m s ≡ (ok u, s')
      → log s' ≡ log s ++ m ∷ []

pub data Balancer : Type 0 where
  least_bytes : Balancer

-- What is set of a kafka.Writer.
pub record WriterConfig : Type 0 where
  pub brokers : List Text
  pub topic : Text
  pub balancer : Balancer

unfoldable pub new_producer : KafkaConfig → WriterConfig
new_producer cfg = record { brokers = cfg.brokers; topic = cfg.topic; balancer = least_bytes }

module _ {S : Type 0} (w : Writer S) where
  unfoldable pub publish : Text → Text → Action S (Unit {0})
  publish key value =
      map_error (wrapped (lit "write kafka message: "))
        (w.write_messages (record { key = key; value = value }))

  pub publish_done :
      (key value : Text) (s s' : S) (u : Unit {0})
      → publish key value s ≡ (ok u, s')
      → w.log s' ≡ w.log s ++ record { key = key; value = value } ∷ []
  unfolding publish
  publish_done key value s s' u h = w.write_messages_ok _ s s' u (ground arith)

  -- The producer as the publisher that the document service relies on.
  unfoldable pub event_publisher : EventPublisher S
  event_publisher = record { published = w.log; publish = publish; publish_ok = publish_done }

-- `Close` passes on the call of the writer.
unfoldable pub close_producer : {S : Type 0} → Action S (Unit {0}) → Action S (Unit {0})
close_producer close_writer = close_writer
