-- ===== src/Stream.antt =====
-- The consumption of one Kafka topic, src/Stream/: the filters of a partition's messages, the queue
-- of writes, the partitions and the topic.
pub mod SourceFilter
pub mod PartitionFilter
pub mod Partition
pub mod Topic
pub mod MessageWriter
