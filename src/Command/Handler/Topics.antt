-- ===== src/Command/Handler/Topics.antt =====
-- Which command topic the handler listens to and answers on.
use kafka_to_nexus.Common.{
  ℤ, ◌≡◌, ◌≢◌, ◌⊎◌, true, false, Option, none, some, Text, arith, [], ◌∷◌, text_eq,
}
use kafka_to_nexus.Time.{time_max}
use kafka_to_nexus.Command.Parser.{StartMessage}
use kafka_to_nexus.Command.Listener.{
  no_assignment, connects, Consumer, absent, assigned, subscribed, idle, Listener, set_up_consumer,
  change_topic,
}
use kafka_to_nexus.Command.Handler.{
  Callbacks, Uuids, Handler, Chances, ActionResult, stopped, is_empty_text, is_valid_uuid,
  switch_command_topic, revert_command_topic, give_up_start, try_start, check_start, send_stopped,
  responds,
}

-- The topic that a consumer reads.
abbrev pub topic_of : Consumer → Option Text
topic_of absent = none
topic_of idle = none
topic_of (assigned t from) = some t
topic_of (subscribed t) = some t

-- The listener is for a topic, and has a consumer that reads this topic.
pub record IsOn (topic : Text) (l : Listener) : Type 0 where
  pub topic_is : l.command_topic ≡ topic
  pub reads : topic_of l.consumer ≡ some topic

-- The handler listens to its own topic and answers there.
pub record IsHome (h : Handler) : Type 0 where
  pub own : h.using_alt_topic ≡ false
  pub source : IsOn h.command_topic_address h.command_source
  pub answers : h.command_response ≡ some h.command_topic_address

-- It listens to the topic of a job, answers there, and keeps the producer for its own topic.
pub record IsAway (topic : Text) (h : Handler) : Type 0 where
  pub alt : h.using_alt_topic ≡ true
  pub source : IsOn topic h.command_source
  pub answers : h.command_response ≡ some topic
  pub kept : h.alt_command_response ≡ some h.command_topic_address

-- All calls of Kafka succeed.
pub record IsLucky (k : Chances) : Type 0 where
  pub switches : k.switching ≡ connects
  pub produces : k.producer_made ≡ true
  pub reverts : k.reverting ≡ connects

change_topic-IsOn :
    (topic : Text) (from : ℤ) (l : Listener)
    → IsOn topic (change_topic connects topic from l).0
      × ((change_topic connects topic from l).1 ≡ false)
unfolding change_topic set_up_consumer
change_topic-IsOn topic from l = ground arith

switch-IsAway :
    (k : Chances) (topic : Text) (from : ℤ) (h : Handler)
    → IsLucky k
    → IsHome h
    → let r = switch_command_topic k topic from h in
      (r.1 ≡ false)
      × (IsHome r.0 ⊎ IsAway topic r.0)
      × (r.0.command_topic_address ≡ h.command_topic_address)
unfolding switch_command_topic
switch-IsAway k topic from h l o = ground (arith, change_topic-IsOn topic from h.command_source)

pub revert-IsHome :
    (topic : Text) (h : Handler)
    → IsHome h ⊎ IsAway topic h
    → let r = revert_command_topic connects h in
      (r.1 ≡ false) × IsHome r.0 × (r.0.command_topic_address ≡ h.command_topic_address)
unfolding revert_command_topic
revert-IsHome topic h o =
    ground (arith, change_topic-IsOn h.command_topic_address time_max h.command_source)

module _ {S : Type 0} (c : Callbacks S) (u : Uuids) where
  try_start-topic :
      (k : Chances) (m : StartMessage) (h : Handler) (s : S)
      → IsLucky k
      → IsHome h
      → let (h', s', o) = try_start c u k m h s in
        ((o ≡ responds 201) × (IsHome h' ⊎ IsAway m.control_topic h'))
        ⊎ ((o ≡ responds 500) × IsHome h')
  unfolding try_start give_up_start
  try_start-topic k m h s l o = ground (
    arith,
    switch-IsAway k m.control_topic m.start_time h l o,
    revert-IsHome m.control_topic (switch_command_topic k m.control_topic m.start_time h).0,
  )

  check_start-topic :
      (k : Chances) (m : StartMessage) (h : Handler) (s : S)
      → IsLucky k
      → IsHome h
      → let (h', s', o) = check_start c u k m h s in
        ((o ≡ responds 201) × (IsHome h' ⊎ IsAway m.control_topic h'))
        ⊎ ((o ≢ responds 201) × IsHome h')
  unfolding check_start
  check_start-topic k m h s l o = ground (arith, try_start-topic k m h s l o)

  -- While the calls of Kafka succeed, a start command to a handler on its own command topic leaves it
  -- either there or on the control topic of the command, listening to one topic and answering on it,
  -- and off its own topic only if the answer is 201. The message for the end of that job goes to the
  -- same topic, and after it the handler is on its own topic again, no exception thrown.
  pub command_topic_through_job :
      (k : Chances) (m : StartMessage) (result : ActionResult) (h : Handler) (s later : S)
      → IsLucky k
      → IsHome h
      → let (h', s', o) = check_start c u k m h s in
        let (h'', thrown, sent) = send_stopped c u result k.reverting h' later in
        (((o ≡ responds 201) × (IsHome h' ⊎ IsAway m.control_topic h'))
          ⊎ ((o ≢ responds 201) × IsHome h'))
        × (sent ≡ stopped h'.command_response result (c.get_job_id later) ∷ [])
        × (thrown ≡ false)
        × IsHome h''
  unfolding send_stopped
  command_topic_through_job k m result h s later l o = ground (
    arith,
    check_start-topic k m h s l o,
    revert-IsHome m.control_topic (check_start c u k m h s).0,
  )

  -- After a start whose switch to another control topic failed at the assignment of its consumer, the
  -- handler takes itself to be on its own topic, while the listener's new consumer reads no topic at
  -- all; a later job that is controlled on the handler's own topic is then started and answered with
  -- 201, and the listener still reads no topic.
  pub failed_switch_sticks :
      (k k' : Chances) (m m' : StartMessage) (h : Handler) (s later : S)
      → k.switching ≡ no_assignment
      → h.using_alt_topic ≡ false
      → c.is_writing_now s ≡ false
      → is_valid_uuid u m.job_id ≡ true
      → is_empty_text m.control_topic ≡ false
      → text_eq m.control_topic h.command_topic_address ≡ false
      → c.is_writing_now later ≡ false
      → is_valid_uuid u m'.job_id ≡ true
      → is_empty_text m'.control_topic ≡ false
      → text_eq m'.control_topic h.command_topic_address ≡ true
      → (c.do_start m' later).1 ≡ false
      → let (h', s', o) = check_start c u k m h s in
        let (h'', s'', o') = check_start c u k' m' h' later in
        (o ≡ responds 500)
        × (h'.using_alt_topic ≡ false)
        × (o' ≡ responds 201)
        × (h''.command_source.consumer ≡ idle)
        × (h''.using_alt_topic ≡ false)
  unfolding check_start try_start give_up_start switch_command_topic revert_command_topic
      change_topic set_up_consumer
  failed_switch_sticks k k' m m' h s later f a w v e d w' v' e' d' g = ground arith
