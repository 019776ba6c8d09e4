-- ===== src/Stream/SourceFilter/Counts.antt =====
-- What the counters of a source filter say of the messages that it was handed.
use kafka_to_nexus.Common.{ℕ, ◌+◌, ◌≤◌, List, [], ◌∷◌, if◌then◌else◌, arith}
use kafka_to_nexus.Message.{FlatbufferMessage}
use kafka_to_nexus.Stream.SourceFilter.{
  SourceFilter, WriteJob, filter_message, filter_all, forward_buffered_message,
}

-- 1 if a message waits in the buffer.
abbrev pub pending : SourceFilter → ℕ
pending f = if f.buffered_message.valid then 1 else 0

abbrev pub IsAccounted : SourceFilter → Type 0
IsAccounted f = f.messages_transmitted + f.messages_discarded + pending f ≤ f.messages_received

filter_message-IsAccounted :
    (m : FlatbufferMessage) (f : SourceFilter) (queue : List WriteJob)
    → IsAccounted f
    → IsAccounted (filter_message m f queue).0
unfolding filter_message
filter_message-IsAccounted m f queue h = ground arith

filter_all-IsAccounted :
    (ms : List FlatbufferMessage) (f : SourceFilter) (queue : List WriteJob)
    → IsAccounted f
    → IsAccounted (filter_all ms f queue).0
unfolding filter_all
filter_all-IsAccounted [] f queue h = h
filter_all-IsAccounted (m ∷ ms) f queue h =
    filter_all-IsAccounted ms (filter_message m f queue).0 (filter_message m f queue).1
      (filter_message-IsAccounted m f queue h)

-- However many messages, of whatever kind and order, a filter that was accounted is handed, and also
-- after its destructor has run: no more were transmitted and discarded than were received, so no
-- message is transmitted twice.
transmitted_at_most_received :
    (f : SourceFilter) (ms : List FlatbufferMessage) (queue : List WriteJob)
    → IsAccounted f
    → let (g, queue') = filter_all ms f queue in
      let h = (forward_buffered_message g queue').0 in
      h.messages_transmitted + h.messages_discarded ≤ h.messages_received
unfolding forward_buffered_message
transmitted_at_most_received f ms queue a = ground (arith, filter_all-IsAccounted ms f queue a)
