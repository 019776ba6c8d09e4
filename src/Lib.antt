-- ===== src/Lib.antt =====
-- The core of the file writer of kafka-to-nexus. A start command names a job; for each topic of the job
-- the service makes one consumer per partition; each consumer polls Kafka, turns a message into a
-- flatbuffer and offers it to the source filters of the partition, which put the messages of the
-- job's time window on the queue of the writer; stop commands and stop times end this.
--
-- The parts, and the files of the repository they model:
--   Time: the clock types of src/TimeUtility.h, 64-bit counts of nanoseconds with wrap-around.
--   Message: src/Msg.h, src/FlatbufferMessage.{h,cpp} and the registry of src/FlatbufferReader.{h,cpp}.
--     A message is a list of bytes and its metadata; the readers are an interface.
--   Kafka: `Consumer::poll` of src/Kafka/Consumer.cpp, given what librdkafka returns. Metadata is
--     src/Kafka/MetaDataQuery.cpp and the assignment of partitions in Consumer.cpp; the consumer of
--     librdkafka is the interface RdConsumer.
--   Stream.SourceFilter: src/Stream/SourceFilter.{h,cpp}. The state is the record SourceFilter with the
--     members and metrics of the class; the queue of write jobs, which the class reaches through its
--     MessageWriter, is passed along. `filter_message` is cut where its tests stand, into
--     filter_received, filter_by_stamp and filter_by_time; the destructor is
--     forward_buffered_message.
--   Stream.PartitionFilter: src/Stream/PartitionFilter.{h,cpp}. Each reading of the clock is an argument.
--   Stream.Partition: src/Stream/Partition.{h,cpp}. poll_for_message is `pollForMessage`, with the result
--     of the poll, the clock and the pause in a Turn; process_message is `processMessage`. Filters is
--     `create_filters`; the metrics are fields. Threaded is `PartitionThreaded` as steps of two threads:
--     an Action is one atomic access or one call, a list of them an interleaving.
--   Stream.Topic: src/Stream/Topic.{h,cpp} on the executor of src/ThreadedExecutor.h. A lambda that is sent
--     to the executor is a Task; an Event is a round of the executor, a call from outside or the end of
--     a consumer, and the answers of the broker come with each round.
--   Stream.MessageWriter: src/Stream/MessageWriter.{h,cpp}. The thread is a state machine whose steps
--     interleave with additions to the queue; the writer modules and the file are a state of any type.
--   Controller: src/StreamController.{h,cpp}, as far as it watches and stops its topics. A topic is behind
--     a pointer, and a call through null is a result of its own. Setup is the way from `start` to
--     `initStreams`, with src/Source.{h,cpp}: the sources of a job, grouped by topic, become the
--     keys from which Stream.Partition.Filters makes source filters. Throttle is the pause of the streams.
--   Job: src/JobCreator.cpp with src/ModuleHDFInfo.h and src/ModuleSettings.h, over the interfaces Json and
--     Modules. It makes the writer modules and the sources that Controller.Setup takes. Task is
--     src/FileWriterTask.{h,cpp}.
--   MetaData: the tracker of src/MetaData/.
--   Config: src/JsonConfig/, the fields that configure a writer module.
--   Writer: src/WriterModuleBase.h, whose `write` is what Stream.MessageWriter calls, and a module per
--     writer of src/WriterModule/: F144, Ev44, Se00, Ad00, Da00, Mdat, and tdct, al00 and ep01 in Small.
--     A message is what the generated accessors read. Registry is src/WriterRegistrar.cpp.
--   Dataset: src/NeXusDataset/ExtensibleDataset.{h,cpp}, on which the writers stand. The interface Hdf5 has
--     the operations of a dataset of one dimension, its laws are IsHdf5, and IsReliable says that none
--     fails; Rows has datasets of several dimensions over Hdf5Rows. Memory fills the interfaces.
--   Master: src/Master.cpp with the status topics of src/Status/StatusReporterBase.cpp. It fills the
--     interface of the command handler, and `run` composes the two.
--   MultiVector: the array of src/MultiVector.h, with the arithmetic of `size_t` and `int`.
--   Command: src/CommandSystem/. Parser models Parser.cpp from what the generated code reads; Listener
--     models CommandListener.cpp and JobListener.cpp; Handler models Handler.cpp over the interface
--     Callbacks, which holds the registered functions. What becomes of the Kafka calls is an input.
--
-- The queues are those of a library, which keep the order of each thread that adds to them and no other.
-- The writer's queue holds a job with its thread, and the executor of a topic has a list for the caller's
-- thread and one for its own; which thread comes first is an input of each step that takes from a queue.
-- Where a writer gives HDF5 an integer of another type than the dataset's, the conversion is a parameter.
--
-- Strings are lists of bytes, and `std::hash`, the registry's readers, the parsing of UUIDs and the
-- operations of `double` are parameters. One definition has fuel: the loop of Job.init_streams runs over a
-- list that it makes longer; the number of streams with all their extra modules is enough where extra
-- modules have no extra modules of their own, as in this program, where f144, se00 and tdct name ep01
-- and al00. All other loops of the code that are modelled run over a list, and loops that run until the
-- program ends are lists of steps of any length. Two theorems ask for a number of steps: that on a partition's requested stop for 13, at most 6 to the poll from any place of the
-- loop and the rest for a round that meets the request; that on the writer's stop for 4 more than the
-- queue has jobs, which is the way from any place of its loop to the end.
--
-- Not modelled: the texts of log messages and responses, the registration of metrics, HDF5 itself with its
-- attributes, links and files, the configuration of the variables of da00 and what becomes of its first message, the producers of Kafka, the
-- values of src/MetaData/ behind their tracker, and the calls of the mdat writer in
-- src/StreamController.cpp.
pub mod Common
pub mod Time
pub mod Message
pub mod Kafka
pub mod Stream
pub mod MultiVector
pub mod Command
pub mod Dataset
pub mod Writer
pub mod MetaData
pub mod Config
pub mod Job
pub mod Controller
pub mod Master
