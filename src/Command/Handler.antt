-- ===== src/Command/Handler.antt =====
-- src/CommandSystem/Handler.cpp. The registered functions are an interface over the state of the
-- service, which Master fills. Texts of messages are left out; exceptions are results.
pub mod Guards
pub mod Topics
use kafka_to_nexus.Common.{
  ℤ, pos, ℕ, Bool, true, false, List, [], ◌∷◌, ◌++◌, Option, none, some, Text, if◌then◌else◌,
  text_eq, not, ◌&&◌, ◌||◌, eqb_ℤ, leb,
}
use kafka_to_nexus.Time.{time_max, epoch}
use kafka_to_nexus.Kafka.{PollStatus, message}
use kafka_to_nexus.Command.Parser.{
  StartMessage, StopMessage, empty_start, empty_stop, Parsed, parsed, refused, null_read,
}
use kafka_to_nexus.Command.Listener.{Attempt, Listener, change_topic, disconnect_from_pool}

-- The functions that are registered with the handler; a Boolean says whether an exception was thrown.
pub record Callbacks (S : Type 0) : Type 0 where
  pub is_writing_now : S → Bool
  pub get_job_id : S → Text
  pub do_start : StartMessage → S → S × Bool
  pub do_set_stop_time : ℤ → S → S × Bool
  pub do_stop_now : S → S × Bool

-- What stduuid reads from a text; `version_none` and a variant other than RFC 4122 are refused.
pub record Uuid : Type 0 where
  pub is_nil : Bool
  pub has_version : Bool
  pub is_rfc : Bool

pub record Uuids : Type 0 where
  pub from_string : Text → Option Uuid
  -- What reading through the empty result gives, which C++ does not define.
  pub indeterminate : Uuid

pub data ActionResult : Type 0 where
  success failure : ActionResult

pub data ActionResponse : Type 0 where
  start_job set_stop_time : ActionResponse

-- What the feedback producer of a topic sends.
pub data Sent : Type 0 where
  echo_message : Option Text → Sent
  response : Option Text → ActionResponse → ActionResult → Text → Text → ℤ → ℕ → Sent
  stopped : Option Text → ActionResult → Text → Sent

-- The feedback producers are known by their topics.
pub record Handler : Type 0 where
  pub command_topic_address : Text
  pub job_pool : Listener
  pub command_source : Listener
  pub command_response : Option Text
  pub alt_command_response : Option Text
  pub using_alt_topic : Bool

-- What becomes of the Kafka calls during one command.
pub record Chances : Type 0 where
  pub switching : Attempt
  pub producer_made : Bool
  pub reverting : Attempt

-- The handler, and whether an exception was thrown.
unfoldable pub revert_command_topic : Attempt → Handler → Handler × Bool
revert_command_topic a h =
    if h.using_alt_topic
    then (let (source, thrown) = change_topic a h.command_topic_address time_max h.command_source in
        if thrown then (record h { command_source = source }, true) else (
          record h {
            command_source = source;
            alt_command_response = h.command_response;
            command_response = h.alt_command_response;
            using_alt_topic = false;
          },
          false,
        ))
    else (h, false)

abbrev pub is_empty_text : Text → Bool
is_empty_text [] = true
is_empty_text (c ∷ cs) = false

unfoldable pub switch_command_topic : Chances → Text → ℤ → Handler → Handler × Bool
switch_command_topic k control_topic start_time h =
    if not (is_empty_text control_topic) && not (text_eq control_topic h.command_topic_address)
    then (let (source, thrown) =
          change_topic k.switching control_topic start_time h.command_source in
        let h' = record h { command_source = source } in
        if thrown || not k.producer_made then (h', true) else (
          record h' {
            command_response = some control_topic;
            alt_command_response = h.command_response;
            using_alt_topic = true;
          },
          false,
        ))
    else (h, false)

unfoldable pub is_valid_uuid : Uuids → Text → Bool
is_valid_uuid u text =
    let id : Uuid = elim (u.from_string text) [ none ↦ u.indeterminate | some i ↦ i ] in
    not id.is_nil && (id.has_version && id.is_rfc)

-- `CmdResponse` by its status code, an exception that leaves the function, or undefined behaviour.
pub data Outcome : Type 0 where
  responds : ℕ → Outcome
  escapes : Outcome
  crashes : Outcome

abbrev pub result_of : ℕ → ActionResult
result_of code = if leb 400 code then failure else success

abbrev pub start_replies : Option Text → StartMessage → Outcome → List Sent
start_replies topic m (responds code) =
    echo_message topic
    ∷ response topic start_job (result_of code) m.job_id m.job_id m.stop_time code
    ∷ []
start_replies topic m escapes = []
start_replies topic m crashes = []

abbrev pub stop_replies : Option Text → StopMessage → Outcome → List Sent
stop_replies topic m (responds code) =
    response topic set_stop_time (result_of code) m.job_id m.command_id m.stop_time code ∷ []
stop_replies topic m escapes = []
stop_replies topic m crashes = []

-- A message from the job pool, as `isStartCommand` and the parser see it, or from the command topic.
pub data Command : Type 0 where
  a_start : Parsed StartMessage → Command
  a_stop : Parsed StopMessage → Command
  another : Command

module _ {S : Type 0} (c : Callbacks S) (u : Uuids) where
  -- The catch clause of the start: the topic is reverted, which may throw in turn.
  unfoldable pub give_up_start : Chances → Handler → S → Handler × S × Outcome
  give_up_start k h s =
      let (h', thrown) = revert_command_topic k.reverting h in
      (h', s, if thrown then escapes else responds 500)

  unfoldable pub try_start : Chances → StartMessage → Handler → S → Handler × S × Outcome
  try_start k m h s =
      let (h', thrown) = switch_command_topic k m.control_topic m.start_time h in
      if thrown
      then give_up_start k h' s
      else (let (s', failed) = c.do_start m s in
          if failed then give_up_start k h' s' else (h', s', responds 201))

  unfoldable pub check_start : Chances → StartMessage → Handler → S → Handler × S × Outcome
  check_start k m h s =
      if c.is_writing_now s || (not (is_valid_uuid u m.job_id) || is_empty_text m.control_topic)
      then (h, s, responds 400)
      else try_start k m h s

  -- The last part is the message that the caller's variable holds.
  unfoldable pub start_writing_process :
      Chances → Parsed StartMessage → Handler → S → Handler × S × Outcome × StartMessage
  start_writing_process k (refused fields) h s = (h, s, responds 400, empty_start)
  start_writing_process k null_read h s = (h, s, crashes, empty_start)
  start_writing_process k (parsed m) h s = let (h', s', o) = check_start k m h s in (h', s', o, m)

  unfoldable pub handle_start_command :
      Chances → Parsed StartMessage → Handler → S → Handler × S × List Sent
  handle_start_command k p h s =
      let (h', s', o, m) = start_writing_process k p h s in
      (h', s', start_replies h'.command_response m o)

  unfoldable pub try_stop : StopMessage → S → S × Outcome
  try_stop m s =
      let (s', failed) =
        if eqb_ℤ m.stop_time epoch then c.do_stop_now s else c.do_set_stop_time m.stop_time s in
      (s', responds (if failed then 500 else 201))

  unfoldable pub stop_writing_process : Parsed StopMessage → S → S × Outcome × StopMessage
  stop_writing_process (refused fields) s = (s, responds 400, empty_stop)
  stop_writing_process null_read s = (s, crashes, empty_stop)
  stop_writing_process (parsed m) s =
      if not (c.is_writing_now s)
        || (not (text_eq (c.get_job_id s) m.job_id) || not (is_valid_uuid u m.command_id))
      then (s, responds 400, m)
      else (let (s', o) = try_stop m s in (s', o, m))

  unfoldable pub handle_stop_command : Parsed StopMessage → Handler → S → S × List Sent
  handle_stop_command p h s =
      let (s', o, m) = stop_writing_process p s in (s', stop_replies h.command_response m o)

  -- `sendHasStoppedMessage` and `sendErrorEncounteredMessage`; the Boolean is an exception.
  unfoldable pub send_stopped : ActionResult → Attempt → Handler → S → Handler × Bool × List Sent
  send_stopped result a h s =
      let (h', thrown) = revert_command_topic a h in
      (h', thrown, stopped h.command_response result (c.get_job_id s) ∷ [])

  abbrev pub from_pool : Chances → PollStatus → Command → Handler → S → Handler × S × List Sent
  from_pool k message (a_start p) h s =
      let (h', s', sent) = handle_start_command k p h s in
      (record h' { job_pool = disconnect_from_pool h'.job_pool }, s', sent)
  from_pool k _ _ h s = (h, s, [])

  abbrev pub from_commands : PollStatus → Command → Handler → S → Handler × S × List Sent
  from_commands message (a_stop p) h s = let (s', sent) = handle_stop_command p h s in (h, s', sent)
  from_commands _ _ h s = (h, s, [])

  -- `loopFunction`, given what the consumer that it polls returns.
  unfoldable pub loop_function :
      Chances → PollStatus → Command → Handler → S → Handler × S × List Sent
  loop_function k status command h s =
      if not (c.is_writing_now s)
      then from_pool k status command h s
      else from_commands status command h s
