-- ===== src/Command/Listener.antt =====
-- src/CommandSystem/CommandListener.cpp and JobListener.cpp: a consumer of one topic. What becomes of
-- an attempt to set it up is an input.
use kafka_to_nexus.Common.{ℤ, Bool, true, false, Text, [], if◌then◌else◌, ltb_ℤ, ◌∷◌}
use kafka_to_nexus.Time.{time_max}

-- `_consumer_factory->createConsumer` and the assignment or subscription after it: both succeed, the
-- first throws, or the second throws.
pub data Attempt : Type 0 where
  connects no_consumer no_assignment : Attempt

-- `Consumer`: null, with a topic assigned from some time on or subscribed to, or new with neither.
pub data Consumer : Type 0 where
  absent : Consumer
  assigned : Text → ℤ → Consumer
  subscribed : Text → Consumer
  idle : Consumer

pub record Listener : Type 0 where
  pub command_topic : Text
  pub start_timestamp : ℤ
  pub consumer : Consumer

-- The new consumer, or the state that an exception leaves; true if it was thrown.
unfoldable pub set_up_consumer : Attempt → Listener → Listener × Bool
set_up_consumer no_consumer l = (l, true)
set_up_consumer no_assignment l = (record l { consumer = idle }, true)
set_up_consumer connects l = (
  record l {
    consumer =
        if ltb_ℤ l.start_timestamp time_max
        then assigned l.command_topic l.start_timestamp
        else subscribed l.command_topic;
  },
  false,
)

-- `change_topic`, whose exception is the `MetadataException` of `try_connecting_to_topic`.
unfoldable pub change_topic : Attempt → Text → ℤ → Listener → Listener × Bool
change_topic a new_topic start_time l =
    set_up_consumer a (record l { command_topic = new_topic; start_timestamp = start_time })

unfoldable pub disconnect_from_pool : Listener → Listener
disconnect_from_pool l = record l { consumer = absent }

-- What `pollForCommand` does: it polls, or sets up the consumer and reports a time-out, or throws.
pub data Polled : Type 0 where
  polls waits fails : Polled

unfoldable pub poll_with : Attempt → Consumer → Listener → Listener × Polled
poll_with a absent l =
    let (l', thrown) = set_up_consumer a l in (l', if thrown then fails else waits)
poll_with a (assigned t s) l = (l, polls)
poll_with a (subscribed t) l = (l, polls)
poll_with a idle l = (l, polls)

unfoldable pub poll_for_command : Attempt → Listener → Listener × Polled
unfolding poll_with
poll_for_command a l = elim l.command_topic [ [] ↦ (l, waits) | c ∷ cs ↦ poll_with a l.consumer l ]
