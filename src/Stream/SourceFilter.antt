-- ===== src/Stream/SourceFilter.antt =====
-- The filter of one source's messages by time: src/Stream/SourceFilter.{h,cpp}. The write queue of
-- `_writer` is passed along; a destination pointer is a number; the metrics are counters.
pub mod Counts
pub mod Safety
pub mod Window
mod Examples
use kafka_to_nexus.Common.{
  ℤ, pos, ℕ, ◌+◌, ◌≡◌, Bool, true, false, List, [], ◌∷◌, ◌++◌, map, if◌then◌else◌, ltb_ℤ, eqb_ℤ,
  ◌==◌, ◌&&◌, not,
}
use kafka_to_nexus.Time.{to_timepoint}
use kafka_to_nexus.Message.{FlatbufferMessage, empty_message}

-- `Message` with the flag of `addMessage`: one entry of the write queue.
pub record WriteJob : Type 0 where
  pub destination : ℕ
  pub message : FlatbufferMessage
  pub is_buffered_message : Bool

pub record SourceFilter : Type 0 where
  pub start_time : ℤ
  pub stop_time : ℤ
  pub allow_repeated_timestamps : Bool
  pub last_seen_timestamp : ℤ
  pub is_finished : Bool
  pub buffered_message : FlatbufferMessage
  pub destination_writer_modules : List ℕ
  pub source_hash : ℕ
  pub flatbuffer_invalid : ℕ
  pub unordered_timestamp : ℕ
  pub repeated_timestamp : ℕ
  pub messages_received : ℕ
  pub messages_transmitted : ℕ
  pub messages_discarded : ℕ

-- The constructor.
unfoldable pub new : ℤ → ℤ → Bool → SourceFilter
new start_time stop_time allow_repeated_timestamps = record {
  start_time = start_time;
  stop_time = stop_time;
  allow_repeated_timestamps = allow_repeated_timestamps;
  last_seen_timestamp = pos 0;
  is_finished = false;
  buffered_message = empty_message;
  destination_writer_modules = [];
  source_hash = 0;
  flatbuffer_invalid = 0;
  unordered_timestamp = 0;
  repeated_timestamp = 0;
  messages_received = 0;
  messages_transmitted = 0;
  messages_discarded = 0;
}

unfoldable pub add_writer_module_for_message : ℕ → SourceFilter → SourceFilter
add_writer_module_for_message writer_module f = record f {
  destination_writer_modules = f.destination_writer_modules ++ writer_module ∷ [];
}

unfoldable pub set_stop_time : ℤ → SourceFilter → SourceFilter
set_stop_time t f = record f { stop_time = t }

unfoldable pub set_source_hash : ℕ → SourceFilter → SourceFilter
set_source_hash h f = record f { source_hash = h }

unfoldable pub has_finished : SourceFilter → Bool
has_finished f = f.is_finished

abbrev pub jobs_for : List ℕ → Bool → FlatbufferMessage → List WriteJob
jobs_for destinations buffered m =
    map (λ d. record { destination = d; message = m; is_buffered_message = buffered }) destinations

-- The message goes to each writer module in turn.
unfoldable pub forward_message :
    FlatbufferMessage → Bool → SourceFilter → List WriteJob → SourceFilter × List WriteJob
forward_message m buffered f queue = (
  record f { messages_transmitted = f.messages_transmitted + 1 },
  queue ++ jobs_for f.destination_writer_modules buffered m,
)

-- Also the destructor.
unfoldable pub forward_buffered_message :
    SourceFilter → List WriteJob → SourceFilter × List WriteJob
unfolding forward_message
forward_buffered_message f queue =
    if f.buffered_message.valid
    then (let (f', queue') = forward_message f.buffered_message true f queue in
        (record f' { buffered_message = empty_message }, queue'))
    else (f, queue)

discard : SourceFilter → SourceFilter
discard f = record f { messages_discarded = f.messages_discarded + 1 }

-- `filter_message` from the test against the start time on.
filter_by_time :
    FlatbufferMessage → SourceFilter → List WriteJob → SourceFilter × List WriteJob × Bool
unfolding forward_buffered_message discard
filter_by_time m f queue =
    let message_time = to_timepoint m.timestamp in
    if ltb_ℤ message_time f.start_time
    then (if f.buffered_message.valid
          && ltb_ℤ message_time (to_timepoint f.buffered_message.timestamp)
        then (discard f, queue, false)
        else (record f { buffered_message = m }, queue, false))
    else (if ltb_ℤ f.stop_time message_time
        then (let (f', queue') = forward_buffered_message (record f { is_finished = true }) queue in
            (f', queue', false))
        else (let (f', queue') = forward_buffered_message f queue in
            let (f'', queue'') = forward_message m false f' queue' in (f'', queue'', true)))

-- The tests on the time stamp, which count repeated and unordered ones, and let the rest through.
filter_by_stamp :
    FlatbufferMessage → SourceFilter → List WriteJob → SourceFilter × List WriteJob × Bool
unfolding filter_by_time
filter_by_stamp m f queue =
    if eqb_ℤ m.timestamp f.last_seen_timestamp
    then (let f' = record f { repeated_timestamp = f.repeated_timestamp + 1 } in
        if not f.allow_repeated_timestamps
        then (discard f', queue, false)
        else filter_by_time m (record f' { last_seen_timestamp = m.timestamp }) queue)
    else (if ltb_ℤ m.timestamp f.last_seen_timestamp
        then filter_by_time m
            (record f {
              unordered_timestamp = f.unordered_timestamp + 1;
              last_seen_timestamp = m.timestamp;
            })
            queue
        else filter_by_time m (record f { last_seen_timestamp = m.timestamp }) queue)

filter_received :
    FlatbufferMessage → SourceFilter → List WriteJob → SourceFilter × List WriteJob × Bool
unfolding filter_by_stamp
filter_received m f queue =
    if f.is_finished
    then (discard f, queue, false)
    else (if not m.valid
        then (let f' = discard f in
            (record f' { flatbuffer_invalid = f'.flatbuffer_invalid + 1 }, queue, false))
        else filter_by_stamp m f queue)

-- The filter, the queue and whether the message was forwarded.
unfoldable pub filter_message :
    FlatbufferMessage → SourceFilter → List WriteJob → SourceFilter × List WriteJob × Bool
unfolding filter_received
filter_message m f queue =
    if m.source_hash == f.source_hash
    then filter_received m (record f { messages_received = f.messages_received + 1 }) queue
    else (f, queue, false)

-- A filter that is handed messages one after the other.
unfoldable pub filter_all :
    List FlatbufferMessage → SourceFilter → List WriteJob → SourceFilter × List WriteJob
filter_all [] f queue = (f, queue)
filter_all (m ∷ ms) f queue =
    let (f', queue', _) = filter_message m f queue in filter_all ms f' queue'
