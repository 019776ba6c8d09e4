-- ===== src/Command/Examples.antt =====
-- The theorems on commands at concrete ones.
use kafka_to_nexus.Common.{
  ℤ, pos, ◌≡◌, ◌≢◌, ◌↔◌, ◌⊎◌, refl, Bool, true, false, List, [], ◌∷◌, Option, none, some, Text,
}
use kafka_to_nexus.Time.{time_max}
use kafka_to_nexus.Kafka.{message}
use kafka_to_nexus.Command.Parser.{
  RunStart, RunStop, StartMessage, StopMessage, job_id_missing, nexus_structure_missing,
  filename_missing, empty_start, empty_stop, Field, parsed, refused, start_message,
  extract_start_message,
}
use kafka_to_nexus.Command.Parser.Fields.{IsPresent, names, start_accepted_iff}
use kafka_to_nexus.Command.Listener.{Listener, connects, no_assignment, subscribed, idle}
use kafka_to_nexus.Command.Handler.{
  Callbacks, Uuids, Handler, Chances, success, stopped, responds, a_stop, check_start,
  loop_function, send_stopped, switch_command_topic, is_valid_uuid,
}
use kafka_to_nexus.Command.Handler.Guards.{
  IsAcceptable, IsCalled, started_iff, loop_function-IsCalled,
}
use kafka_to_nexus.Command.Handler.Topics.{
  IsHome, IsAway, command_topic_through_job, failed_switch_sticks,
}

-- A command without a file name.
abbrev unnamed : RunStart
unnamed = record {
  start_time = 5;
  stop_time = 0;
  job_id = some (1 ∷ 2 ∷ []);
  nexus_structure = some (3 ∷ []);
  filename = none;
  service_id = none;
  metadata = none;
  control_topic = some (9 ∷ []);
  instrument_name = none;
}

start_accepted_iff_example :
    ((IsPresent unnamed.job_id × IsPresent unnamed.nexus_structure × IsPresent unnamed.filename)
      × (extract_start_message (pos 8) unnamed ≡ parsed (start_message (pos 8) unnamed))
      × (some (start_message (pos 8) unnamed).job_id ≡ unnamed.job_id)
      × (some (start_message (pos 8) unnamed).nexus_structure ≡ unnamed.nexus_structure)
      × (some (start_message (pos 8) unnamed).filename ≡ unnamed.filename))
    ⊎ ((fs : List Field) × (extract_start_message (pos 8) unnamed ≡ refused fs)
        × (fs ≢ [])
        × (names job_id_missing fs ≡ false)
        × (names nexus_structure_missing fs ≡ false)
        × (names filename_missing fs ≡ true))
start_accepted_iff_example = start_accepted_iff (pos 8) unnamed

abbrev without_command : RunStop
without_command = record {
  stop_time = 0;
  job_id = some (1 ∷ []);
  command_id = none;
  service_id = none;
}

-- The state of a service is the job that it writes, and the stop time of that job.
abbrev Job : Type 0
Job = Option (Text × ℤ)

abbrev is_some : Job → Bool
is_some none = false
is_some (some j) = true

abbrev job_id_of : Job → Text
job_id_of none = []
job_id_of (some (i, t)) = i

abbrev with_stop_time : ℤ → Job → Job
with_stop_time t none = none
with_stop_time t (some (i, s)) = some (i, t)

abbrev service : Callbacks Job
service = record {
  is_writing_now = is_some;
  get_job_id = job_id_of;
  do_start = λ m s. (some (m.job_id, m.stop_time), false);
  do_set_stop_time = λ t s. (with_stop_time t s, false);
  do_stop_now = λ s. (none, false);
}

-- Any text is a UUID that is fine.
abbrev lenient : Uuids
lenient = record {
  from_string = λ t. some (record { is_nil = false; has_version = true; is_rfc = true });
  indeterminate = record { is_nil = true; has_version = false; is_rfc = false };
}

abbrev own_topic : Text
own_topic = 1 ∷ []

abbrev other_topic : Text
other_topic = 2 ∷ []

abbrev listener : Text → Listener
listener t = record { command_topic = t; start_timestamp = time_max; consumer = subscribed t }

abbrev handler : Handler
handler = record {
  command_topic_address = own_topic;
  job_pool = listener (3 ∷ []);
  command_source = listener own_topic;
  command_response = some own_topic;
  alt_command_response = none;
  using_alt_topic = false;
}

abbrev good : Chances
good = record { switching = connects; producer_made = true; reverting = connects }

abbrev bad : Chances
bad = record good { switching = no_assignment }

abbrev start_on : Text → StartMessage
start_on topic = record empty_start { job_id = 7 ∷ []; control_topic = topic }

abbrev stop_seven : StopMessage
stop_seven = record empty_stop { job_id = 7 ∷ []; command_id = 8 ∷ []; stop_time = pos 60 }

started_iff_example :
    ((check_start service lenient good (start_on other_topic) handler none).2 ≡ responds 201) ↔ (
      IsAcceptable service lenient (start_on other_topic) none
      × ((switch_command_topic good other_topic (start_on other_topic).start_time handler).1
          ≡ false)
      × (false ≡ false))
started_iff_example = started_iff service lenient good (start_on other_topic) handler none

loop_function-IsCalled_example :
    IsCalled service lenient
      (some (7 ∷ [], time_max))
      (a_stop (parsed stop_seven))
      (loop_function service lenient good message
        (a_stop (parsed stop_seven))
        handler
        (some (7 ∷ [], time_max))).1
loop_function-IsCalled_example =
    loop_function-IsCalled service lenient good message (a_stop (parsed stop_seven)) handler
      (some (7 ∷ [], time_max))

command_topic_through_job_example :
    let (h', s', o) = check_start service lenient good (start_on other_topic) handler none in
    let (h'', thrown, sent) =
      send_stopped service lenient success connects h' (some (7 ∷ [], time_max)) in
    (((o ≡ responds 201) × (IsHome h' ⊎ IsAway other_topic h')) ⊎ ((o ≢ responds 201) × IsHome h'))
    × (sent ≡ stopped h'.command_response success (7 ∷ []) ∷ [])
    × (thrown ≡ false)
    × IsHome h''
command_topic_through_job_example =
    command_topic_through_job service lenient good (start_on other_topic) success handler none
      (some (7 ∷ [], time_max)) (record { switches = refl; produces = refl; reverts = refl })
      (record { own = refl; source = record { topic_is = refl; reads = refl }; answers = refl })

failed_switch_sticks_example :
    let (h', s', o) = check_start service lenient bad (start_on other_topic) handler none in
    let (h'', s'', o') = check_start service lenient good (start_on own_topic) h' none in
    (o ≡ responds 500)
    × (h'.using_alt_topic ≡ false)
    × (o' ≡ responds 201)
    × (h''.command_source.consumer ≡ idle)
    × (h''.using_alt_topic ≡ false)
unfolding is_valid_uuid
failed_switch_sticks_example =
    failed_switch_sticks service lenient bad good (start_on other_topic) (start_on own_topic)
      handler none none refl refl refl refl refl refl refl refl refl refl refl
