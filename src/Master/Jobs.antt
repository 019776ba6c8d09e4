-- ===== src/Master/Jobs.antt =====
-- The service through its jobs.
use kafka_to_nexus.Common.{
  ℤ, ◌≡◌, refl, sym, subst, Bool, true, false, not, List, [], ◌∷◌, Option, none, some, Text, arith,
  if◌then◌else◌, eqb_ℤ, ◌⊎◌, inl, inr, ◌||◌, ltb_ℤ, Bool-cases, Option-cases,
}
use kafka_to_nexus.Time.{epoch}
use kafka_to_nexus.Kafka.{timed_out}
use kafka_to_nexus.Command.Parser.{StartMessage}
use kafka_to_nexus.Command.Listener.{connects}
use kafka_to_nexus.Command.Handler.{
  Uuids, Handler, Command, Sent, stopped, success, failure, loop_function, send_stopped,
}
use kafka_to_nexus.Command.Handler.Guards.{
  IsCalled, nothing, started, stopped_by, loop_function-IsCalled,
}
use kafka_to_nexus.Command.Handler.Topics.{IsHome, IsAway, revert-IsHome}
use kafka_to_nexus.Controller.{Controller, Outcome, leaves, null_call, is_done_writing}
use kafka_to_nexus.Controller
use kafka_to_nexus.Master.{
  Master, World, WorkerState, idle, writing, callbacks, is_writing, start_writing, start_job,
  use_alternative_status_topic, stop_now, stop_controller, set_stop_time, after_reset, reset_job,
  revert_to_default_status_topic, set_to_idle, finish_turn, after_loop, run,
}

abbrev pub is_some {ℓ} : {A : Type ℓ} → Option A → Bool
is_some none = false
is_some (some a) = true

-- The service writes if and only if it has streams.
abbrev pub IsConsistent : Master → Type 0
IsConsistent m = is_some m.stream_controller ≡ is_writing m.status.state

-- It does, or there was a call through null.
abbrev pub IsSound : Outcome Master → Type 0
IsSound null_call = Unit {0}
IsSound (leaves m) = IsConsistent m

start_writing-IsConsistent :
    (w : World) (msg : StartMessage) (m : Master)
    → w.producer_fails ≡ false
    → IsConsistent m
    → IsConsistent (start_writing w msg m).0
unfolding start_writing start_job use_alternative_status_topic
start_writing-IsConsistent w msg m p h = ground arith

stop_controller-IsSound :
    (now : ℤ) (o : Outcome Controller) (m : Master)
    → m.status.state ≡ writing
    → IsSound (stop_controller now o m)
stop_controller-IsSound now null_call m h = tt
stop_controller-IsSound now (leaves c) m h = ground arith

is_writing-writing : (s : WorkerState) → is_writing s ≡ true → s ≡ writing
is_writing-writing idle h = cc
is_writing-writing writing h = refl

stop_now-IsSound : (now : ℤ) (m : Master) → IsConsistent m → IsSound (stop_now now m).0
unfolding stop_now
stop_now-IsSound now m h = elim (Bool-cases (is_writing m.status.state)) [
  | inr e ↦ rw (e, stop_now) h
  | inl e ↦ elim (Option-cases m.stream_controller) [
    | inl n ↦ absurd (ground arith)
    | inr (c, n) ↦
        rw (e, n, stop_now)
          (stop_controller-IsSound now (Controller.stop c) m (is_writing-writing m.status.state e))
  ]
]

set_stop_time-IsSound :
    (now t : ℤ) (m : Master) → IsConsistent m → IsSound (set_stop_time now t m).0
unfolding set_stop_time
set_stop_time-IsSound now t m h =
    elim (Bool-cases (not (is_writing m.status.state) || ltb_ℤ m.status.stop_time now)) [
      | inl e ↦ rw (e, set_stop_time) h
      | inr e ↦ elim (Option-cases m.stream_controller) [
        | inl n ↦ rw (e, n, set_stop_time) tt
        | inr (c, n) ↦
            let i : is_writing m.status.state ≡ true = ground arith in
            rw (e, n, set_stop_time) (sym i)
      ]
    ]

after_reset-IsSound :
    (not_writing : Text) (o : Outcome Controller) (m : Master)
    → IsSound (after_reset not_writing o m)
unfolding after_reset revert_to_default_status_topic
after_reset-IsSound not_writing null_call m = tt
after_reset-IsSound not_writing (leaves c) m = ground arith

IsSound-if :
    (b : Bool) (q r : Outcome Master × Bool)
    → IsSound q.0
    → IsSound r.0
    → IsSound (if b then q else r).0
IsSound-if true q r h k = h
IsSound-if false q r h k = k

module _ (not_writing : Text) (u : Uuids) (w : World) where
  -- What a command does keeps the service sound.
  IsCalled-IsSound :
      {s s' : Outcome Master} {d : Command}
      → w.producer_fails ≡ false
      → IsCalled (callbacks w) u s d s'
      → IsSound s
      → IsSound s'
  IsCalled-IsSound p nothing h = h
  IsCalled-IsSound {s = null_call} p (started a) h = tt
  IsCalled-IsSound {s = leaves m} p (started {m = msg} a) h = start_writing-IsConsistent w msg m p h
  IsCalled-IsSound {s = null_call} p (stopped_by {m = msg} a) h =
      IsSound-if (eqb_ℤ msg.stop_time epoch) (null_call, false) (null_call, false) tt tt
  IsCalled-IsSound {s = leaves m} p (stopped_by {m = msg} a) h =
      IsSound-if (eqb_ℤ msg.stop_time epoch) (stop_now w.now m)
        (set_stop_time w.now msg.stop_time m) (stop_now-IsSound w.now m h)
        (set_stop_time-IsSound w.now msg.stop_time m h)

  set_to_idle-IsSound :
      (c : Controller) (h : Handler) (m : Master)
      → IsConsistent m
      → IsSound (set_to_idle not_writing u w c h m).1
  unfolding set_to_idle reset_job
  set_to_idle-IsSound c h m k =
      elim (Bool-cases
        (send_stopped (callbacks w) u (if c.has_error then failure else success) w.chances.reverting
          h (leaves m)).1) [
            | inl e ↦ rw (e, set_to_idle) k
            | inr e ↦ rw (e, set_to_idle) (after_reset-IsSound not_writing (Controller.stop c) m)
          ]

  finish_turn-IsSound :
      (o : Option Controller) (h : Handler) (m : Master) (sent : List Sent)
      → IsConsistent m
      → IsSound (finish_turn not_writing u w o h m sent).1
  finish_turn-IsSound none h m sent k = k
  finish_turn-IsSound (some c) h m sent k = elim (Bool-cases (is_done_writing w.now c)) [
    | inl e ↦ rw e (set_to_idle-IsSound c h m k)
    | inr e ↦ rw e k
  ]

  after_loop-IsSound :
      (h : Handler) (s : Outcome Master) (sent : List Sent)
      → IsSound s
      → IsSound (after_loop not_writing u w h s sent).1
  unfolding after_loop
  after_loop-IsSound h null_call sent k = tt
  after_loop-IsSound h (leaves m) sent k = finish_turn-IsSound m.stream_controller h m sent k

  -- A turn of the service keeps it sound, unless the producer for a status topic cannot be made: it
  -- is in the writing state if and only if it has streams, whatever command came, whatever failed in
  -- the making of a job, and also where a job has just ended.
  pub run-IsSound :
      (h : Handler) (s : Outcome Master)
      → w.producer_fails ≡ false
      → IsSound s
      → IsSound (run not_writing u w h s).1
  unfolding run
  run-IsSound h s p k = after_loop-IsSound _ _ _ (
      IsCalled-IsSound p (loop_function-IsCalled (callbacks w) u w.chances w.polled w.command h s)
        k)

idle_loop :
    (u : Uuids) (w : World) (h : Handler) (m : Master)
    → w.polled ≡ timed_out
    → loop_function (callbacks w) u w.chances w.polled w.command h (leaves m) ≡ (h, leaves m, [])
unfolding loop_function
idle_loop u w h m p = elim (Bool-cases (is_writing m.status.state)) [
  | inl e ↦ rw (p, e, loop_function) refl
  | inr e ↦ rw (p, e, loop_function) refl
]

-- The service after the end of a job: idle, with no job's data, no streams, and its first status topic.
pub record IsReleased (not_writing own_status_topic : Text) (m : Master) : Type 0 where
  pub idle_again : m.status.state ≡ idle
  pub no_id : m.status.job_id ≡ not_writing
  pub no_file : m.status.filename ≡ []
  pub no_times : (m.status.start_time ≡ epoch) × (m.status.stop_time ≡ epoch)
  pub no_streams : m.stream_controller ≡ none
  pub own_status : (m.status_topic ≡ own_status_topic) × (m.using_alt_status_topic ≡ false)

-- The status topic that is not the job's.
abbrev pub own_status_topic : Master → Text
own_status_topic m = if m.using_alt_status_topic then m.alt_status_topic else m.status_topic

-- The stop of the streams calls through null, or the service is released.
abbrev pub IsIdleAgain : Text → Master → Outcome Controller → Outcome Master → Type 0
IsIdleAgain not_writing m null_call s = s ≡ null_call
IsIdleAgain not_writing m (leaves c) s =
    (m' : Master) × (s ≡ leaves m') × IsReleased not_writing (own_status_topic m) m'

after_reset-IsIdleAgain :
    (not_writing : Text) (o : Outcome Controller) (m : Master)
    → IsIdleAgain not_writing m o (after_reset not_writing o m)
unfolding after_reset revert_to_default_status_topic
after_reset-IsIdleAgain not_writing null_call m = refl
after_reset-IsIdleAgain not_writing (leaves c) m = (_, refl, ground arith)

ended_job_resets :
    (not_writing : Text) (u : Uuids) (w : World) (topic : Text) (c : Controller) (h : Handler)
    (m : Master)
    → w.polled ≡ timed_out
    → w.chances.reverting ≡ connects
    → IsHome h ⊎ IsAway topic h
    → m.stream_controller ≡ some c
    → is_done_writing w.now c ≡ true
    → let (h', s', thrown, sent) = run not_writing u w h (leaves m) in
      (sent
        ≡ stopped h.command_response (if c.has_error then failure else success) m.status.job_id
          ∷ [])
      × (thrown ≡ false)
      × IsHome h'
      × (s' ≡ reset_job not_writing c m)
unfolding run after_loop set_to_idle send_stopped
ended_job_resets not_writing u w topic c h m p r o q d =
    let v = revert-IsHome topic h o in
    rw (idle_loop u w h m p, q, d, r, v.0) (refl, refl, v.1, refl)

-- A job whose streams are over, when no command comes: one message that it has ended is sent, on the
-- topic that answers go to, with the job's id, and as a failure exactly if the streams have an error;
-- if the return to the handler's own topic succeeds, the handler is on that topic afterwards, and the
-- service is idle, with the data of no job, no streams and its own status topic, unless the stop of
-- the streams calls through null.
pub ended_job_reported :
    (not_writing : Text) (u : Uuids) (w : World) (topic : Text) (c : Controller) (h : Handler)
    (m : Master)
    → w.polled ≡ timed_out
    → w.chances.reverting ≡ connects
    → IsHome h ⊎ IsAway topic h
    → m.stream_controller ≡ some c
    → is_done_writing w.now c ≡ true
    → let (h', s', thrown, sent) = run not_writing u w h (leaves m) in
      (sent
        ≡ stopped h.command_response (if c.has_error then failure else success) m.status.job_id
          ∷ [])
      × (thrown ≡ false)
      × IsHome h'
      × IsIdleAgain not_writing m (Controller.stop c) s'
unfolding reset_job
ended_job_reported not_writing u w topic c h m p r o q d =
    let (sent, thrown, home, s) = ended_job_resets not_writing u w topic c h m p r o q d in
    (
      sent,
      thrown,
      home,
      subst (IsIdleAgain not_writing m (Controller.stop c)) (sym s)
          (after_reset-IsIdleAgain not_writing (Controller.stop c) m),
    )
