-- ===== src/Master.antt =====
-- The service: src/Master.cpp, with the status topics of src/Status/StatusReporterBase.cpp. The making
-- of a job (`createFileWritingJob` and the start of its controller) and the clock are inputs.
pub mod Jobs
mod Examples
use kafka_to_nexus.Common.{
  ℤ, pos, ℕ, Bool, true, false, not, List, [], ◌∷◌, ◌++◌, Option, none, some, Text, if◌then◌else◌,
  ltb_ℤ, ◌||◌,
}
use kafka_to_nexus.Time.{epoch}
use kafka_to_nexus.Kafka.{PollStatus}
use kafka_to_nexus.Command.Parser.{StartMessage}
use kafka_to_nexus.Command.Listener.{Attempt}
use kafka_to_nexus.Command.Handler.{
  Callbacks, Uuids, Handler, Chances, Command, Sent, ActionResult, success, failure, loop_function,
  send_stopped, is_empty_text,
}
use kafka_to_nexus.Controller.{Controller, Outcome, leaves, null_call, is_done_writing}
use kafka_to_nexus.Controller

pub data WorkerState : Type 0 where
  idle writing : WorkerState

-- `JobStatusInfo`.
pub record JobStatusInfo : Type 0 where
  pub state : WorkerState
  pub job_id : Text
  pub filename : Text
  pub start_time : ℤ
  pub stop_time : ℤ

pub record Master : Type 0 where
  pub status : JobStatusInfo
  pub stream_controller : Option Controller
  pub metadata_from_start : Text
  pub status_topic : Text
  pub alt_status_topic : Text
  pub using_alt_status_topic : Bool

-- The defaults; `not_writing` is "not_currently_writing".
abbrev pub no_job : Text → JobStatusInfo
no_job not_writing = record {
  state = idle;
  job_id = not_writing;
  filename = [];
  start_time = epoch;
  stop_time = epoch;
}

abbrev pub is_writing : WorkerState → Bool
is_writing idle = false
is_writing writing = true

-- The Boolean says that the producer for the topic could not be made, which throws.
unfoldable pub use_alternative_status_topic : Bool → Text → Master → Master × Bool
use_alternative_status_topic fails topic m =
    if m.using_alt_status_topic
    then (m, false)
    else (if fails then (m, true) else (
      record m {
        status_topic = topic;
        alt_status_topic = m.status_topic;
        using_alt_status_topic = true;
      },
      false,
    ))

unfoldable pub revert_to_default_status_topic : Master → Master
revert_to_default_status_topic m =
    if m.using_alt_status_topic
    then record m {
      status_topic = m.alt_status_topic;
      alt_status_topic = m.status_topic;
      using_alt_status_topic = false;
    }
    else m

-- The rest of `startWriting` once the job was made.
unfoldable pub start_job : Bool → StartMessage → Master → Master × Bool
start_job fails msg m =
    let (m', thrown) =
      if not (is_empty_text msg.control_topic)
      then use_alternative_status_topic fails msg.control_topic m
      else (m, false) in
    if thrown then (m', true) else (
      record m' {
        status = record {
          state = writing;
          job_id = msg.job_id;
          filename = msg.filename;
          start_time = msg.start_time;
          stop_time = msg.stop_time;
        };
      },
      false,
    )

-- What the world answers during one turn of the service.
pub record World : Type 0 where
  pub create_job : StartMessage → Option Controller
  pub producer_fails : Bool
  pub now : ℤ
  pub chances : Chances
  pub polled : PollStatus
  pub command : Command

unfoldable pub start_writing : World → StartMessage → Master → Master × Bool
start_writing w msg m = if is_writing m.status.state then (m, true) else (elim (w.create_job msg) [
  | none ↦ (m, true)
  | some c ↦
      start_job w.producer_fails msg
        (record m { stream_controller = some c; metadata_from_start = msg.metadata })
])

abbrev pub with_stop_time : ℤ → Master → Master
with_stop_time t m = record m { status = record (m.status) { stop_time = t } }

-- `stop` and `setStopTime` of the controller that `stopNow` calls.
abbrev pub stop_controller : ℤ → Outcome Controller → Master → Outcome Master
stop_controller now null_call m = null_call
stop_controller now (leaves c) m =
    leaves (
      with_stop_time epoch (record m { stream_controller = some (Controller.set_stop_time now c) }))

unfoldable pub stop_now : ℤ → Master → Outcome Master × Bool
stop_now now m =
    if not (is_writing m.status.state) then (leaves m, true) else (elim m.stream_controller [
      | none ↦ (leaves (with_stop_time epoch m), false)
      | some c ↦ (stop_controller now (Controller.stop c) m, false)
    ])

unfoldable pub set_stop_time : ℤ → ℤ → Master → Outcome Master × Bool
set_stop_time now t m =
    if not (is_writing m.status.state) || ltb_ℤ m.status.stop_time now
    then (leaves m, true)
    else (elim m.stream_controller [
      | none ↦ (null_call, false)
      | some c ↦ (
        leaves (
            with_stop_time t
              (record m { stream_controller = some (Controller.set_stop_time t c) })),
        false,
      )
    ])

abbrev pub lift_start : World → StartMessage → Outcome Master → Outcome Master × Bool
lift_start w msg null_call = (null_call, false)
lift_start w msg (leaves m) = let (m', thrown) = start_writing w msg m in (leaves m', thrown)

abbrev pub lift {ℓ} : {A : Type ℓ} → A → (Master → A) → Outcome Master → A
lift d f null_call = d
lift d f (leaves m) = f m

-- The functions that the constructor registers. After a call through null nothing happens any more.
abbrev pub callbacks : World → Callbacks (Outcome Master)
callbacks w = record {
  is_writing_now = lift false (λ m. is_writing m.status.state);
  get_job_id = lift [] (λ m. m.status.job_id);
  do_start = lift_start w;
  do_set_stop_time = λ t. lift (null_call, false) (set_stop_time w.now t);
  do_stop_now = lift (null_call, false) (stop_now w.now);
}

-- The end of `setToIdle`: the controller's destructor stops it once more.
unfoldable pub after_reset : Text → Outcome Controller → Master → Outcome Master
after_reset not_writing null_call m = null_call
after_reset not_writing (leaves c) m = leaves (
    revert_to_default_status_topic
      (record m { stream_controller = none; status = no_job not_writing }))

unfoldable pub reset_job : Text → Controller → Master → Outcome Master
reset_job not_writing c m = after_reset not_writing (Controller.stop c) m

-- The handler, the service, whether an exception was thrown, and what was sent.
unfoldable pub set_to_idle :
    Text
    → Uuids
    → World
    → Controller
    → Handler
    → Master
    → Handler × Outcome Master × Bool × List Sent
set_to_idle not_writing u w c h m =
    let (h', thrown, sent) =
      send_stopped (callbacks w) u (if c.has_error then failure else success) w.chances.reverting h
        (leaves m) in
    (h', if thrown then leaves m else reset_job not_writing c m, thrown, sent)

-- `run` after the loop function: `hasWritingStopped` and then `setToIdle`.
abbrev pub finish_turn :
    Text
    → Uuids
    → World
    → Option Controller
    → Handler
    → Master
    → List Sent
    → Handler × Outcome Master × Bool × List Sent
finish_turn not_writing u w none h m sent = (h, leaves m, false, sent)
finish_turn not_writing u w (some c) h m sent =
    if is_done_writing w.now c
    then (let (h', m', thrown, more) = set_to_idle not_writing u w c h m in
        (h', m', thrown, sent ++ more))
    else (h, leaves m, false, sent)

unfoldable pub after_loop :
    Text
    → Uuids
    → World
    → Handler
    → Outcome Master
    → List Sent
    → Handler × Outcome Master × Bool × List Sent
after_loop not_writing u w h null_call sent = (h, null_call, false, sent)
after_loop not_writing u w h (leaves m) sent =
    finish_turn not_writing u w m.stream_controller h m sent

unfoldable pub run :
    Text → Uuids → World → Handler → Outcome Master → Handler × Outcome Master × Bool × List Sent
run not_writing u w h s =
    let (h', s', sent) = loop_function (callbacks w) u w.chances w.polled w.command h s in
    after_loop not_writing u w h' s' sent
