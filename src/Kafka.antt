-- ===== src/Kafka.antt =====
-- The consumer's side of Kafka: src/Kafka/PollStatus.h and Consumer.cpp. librdkafka is not modelled:
-- what it returns is an argument.
pub mod Metadata
use kafka_to_nexus.Common.{ℤ, List, ℕ, Text}
use kafka_to_nexus.Message.{Msg, TimestampType, empty_msg}

pub data PollStatus : Type 0 where
  message error end_of_partition timed_out : PollStatus

-- `RdKafka::ErrorCode`, as far as `poll` tells the codes apart.
pub data ErrorCode : Type 0 where
  err_no_error err_timed_out err_partition_eof : ErrorCode
  err_else : ℤ → ErrorCode

-- `RdKafka::Message`.
pub record RdMessage : Type 0 where
  pub err : ErrorCode
  pub timestamp : ℤ
  pub timestamp_type : TimestampType
  pub offset : ℤ
  pub partition : ℤ
  pub topic_name : Text
  pub payload : List ℕ

-- `Consumer::poll`, from the message that `consume` returned.
unfoldable pub poll_of : ErrorCode → RdMessage → PollStatus × Msg
poll_of err_no_error m = (
  message,
  record {
    payload = m.payload;
    meta_data = record {
      timestamp = m.timestamp;
      timestamp_type = m.timestamp_type;
      offset = m.offset;
      partition = m.partition;
      topic = m.topic_name;
    };
  },
)
poll_of err_timed_out m = (timed_out, empty_msg)
poll_of err_partition_eof m = (end_of_partition, empty_msg)
poll_of (err_else code) m = (error, empty_msg)

unfoldable pub poll : RdMessage → PollStatus × Msg
unfolding poll_of
poll m = poll_of m.err m
