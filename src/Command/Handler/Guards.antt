-- ===== src/Command/Handler/Guards.antt =====
-- What a command may do to the service.
use kafka_to_nexus.Common.{
  ◌≡◌, sym, subst, Bool-cases, ◌⊎◌, inl, inr, ◌↔◌, true, false, arith, if◌then◌else◌, text_eq,
  eqb_ℤ,
}
use kafka_to_nexus.Time.{epoch}
use kafka_to_nexus.Kafka.{PollStatus, message, error, end_of_partition, timed_out}
use kafka_to_nexus.Command.Parser.{StartMessage, StopMessage, Parsed, parsed, refused, null_read}
use kafka_to_nexus.Command.Handler.{
  Callbacks, Uuids, Handler, Chances, responds, Command, a_start, a_stop, another, is_valid_uuid,
  is_empty_text, switch_command_topic, give_up_start, try_start, check_start, start_writing_process,
  handle_start_command, try_stop, stop_writing_process, handle_stop_command, loop_function,
  from_pool, from_commands,
}

module _ {S : Type 0} (c : Callbacks S) (u : Uuids) where
  -- A start that the service may take: it is idle, and the command names a job and a control topic.
  pub record IsAcceptable (m : StartMessage) (s : S) : Type 0 where
    pub idle : c.is_writing_now s ≡ false
    pub job : is_valid_uuid u m.job_id ≡ true
    pub topic : is_empty_text m.control_topic ≡ false

  -- A stop that the service may take: it is writing the job that the command names.
  pub record IsForJob (m : StopMessage) (s : S) : Type 0 where
    pub busy : c.is_writing_now s ≡ true
    pub same_job : text_eq (c.get_job_id s) m.job_id ≡ true
    pub command : is_valid_uuid u m.command_id ≡ true

  abbrev pub stop_effect : StopMessage → S → S
  stop_effect m s =
      (if eqb_ℤ m.stop_time epoch then c.do_stop_now s else c.do_set_stop_time m.stop_time s).0

  try_start-result :
      (k : Chances) (m : StartMessage) (h : Handler) (s : S)
      → let (h', s', o) = try_start c u k m h s in
        ((o ≡ responds 201) ↔ (
          ((switch_command_topic k m.control_topic m.start_time h).1 ≡ false)
          × ((c.do_start m s).1 ≡ false)))
        × ((s' ≡ s) ⊎ (s' ≡ (c.do_start m s).0))
  unfolding try_start give_up_start
  try_start-result k m h s = ground arith

  -- A start is answered with the code 201 exactly if the service is idle, the job id is a valid UUID,
  -- the control topic is not empty, the switch to that topic succeeds and starting throws nothing.
  pub started_iff :
      (k : Chances) (m : StartMessage) (h : Handler) (s : S)
      → ((check_start c u k m h s).2 ≡ responds 201) ↔ (
          IsAcceptable m s
          × ((switch_command_topic k m.control_topic m.start_time h).1 ≡ false)
          × ((c.do_start m s).1 ≡ false))
  unfolding check_start
  started_iff k m h s = ground (arith, try_start-result k m h s)

  -- All that a command may do to the state of the service.
  pub data IsCalled (s : S) : Command → S → Type 0 where
    nothing : {d : Command} → IsCalled s d s
    started :
        {m : StartMessage} → IsAcceptable m s → IsCalled s (a_start (parsed m)) (c.do_start m s).0
    stopped_by : {m : StopMessage} → IsForJob m s → IsCalled s (a_stop (parsed m)) (stop_effect m s)

  check_start-effect :
      (k : Chances) (m : StartMessage) (h : Handler) (s : S)
      → let s' = (check_start c u k m h s).1 in
        (s' ≡ s) ⊎ (IsAcceptable m s × (s' ≡ (c.do_start m s).0))
  unfolding check_start
  check_start-effect k m h s = ground (arith, try_start-result k m h s)

  handle_start_command-IsCalled :
      (k : Chances) (p : Parsed StartMessage) (h : Handler) (s : S)
      → IsCalled s (a_start p) (handle_start_command c u k p h s).1
  unfolding handle_start_command start_writing_process
  handle_start_command-IsCalled k (refused fields) h s = nothing
  handle_start_command-IsCalled k null_read h s = nothing
  handle_start_command-IsCalled k (parsed m) h s = elim (check_start-effect k m h s) [
    | inl e ↦ subst (IsCalled s (a_start (parsed m))) (sym e) nothing
    | inr (a, e) ↦ subst (IsCalled s (a_start (parsed m))) (sym e) (started a)
  ]

  stop-effect :
      (m : StopMessage) (s : S)
      → let s' = (stop_writing_process c u (parsed m) s).0 in
        (s' ≡ s) ⊎ (IsForJob m s × (s' ≡ stop_effect m s))
  unfolding stop_writing_process try_stop
  stop-effect m s = ground arith

  handle_stop_command-IsCalled :
      (p : Parsed StopMessage) (h : Handler) (s : S)
      → IsCalled s (a_stop p) (handle_stop_command c u p h s).0
  unfolding handle_stop_command stop_writing_process
  handle_stop_command-IsCalled (refused fields) h s = nothing
  handle_stop_command-IsCalled null_read h s = nothing
  handle_stop_command-IsCalled (parsed m) h s = elim (stop-effect m s) [
    | inl e ↦ subst (IsCalled s (a_stop (parsed m))) (sym e) nothing
    | inr (a, e) ↦ subst (IsCalled s (a_stop (parsed m))) (sym e) (stopped_by a)
  ]

  -- A turn of the loop changes the state of the service only by starting the job of a start command,
  -- while idle, with a valid job id and a control topic, or by stopping or setting the stop time,
  -- while writing, for a stop command that names the job being written and has a valid command id.
  pub loop_function-IsCalled :
      (k : Chances) (status : PollStatus) (d : Command) (h : Handler) (s : S)
      → IsCalled s d (loop_function c u k status d h s).1
  unfolding loop_function
  loop_function-IsCalled k status d h s = elim (Bool-cases (c.is_writing_now s)) [
    | inl e ↦ rw (e, loop_function) (busy status d)
    | inr e ↦ rw (e, loop_function) (idle status d)
  ]
    where
      busy : (status : PollStatus) (d : Command) → IsCalled s d (from_commands c u status d h s).1
      busy message (a_start p) = nothing
      busy message (a_stop p) = handle_stop_command-IsCalled p h s
      busy message another = nothing
      busy error d = nothing
      busy end_of_partition d = nothing
      busy timed_out d = nothing

      idle : (status : PollStatus) (d : Command) → IsCalled s d (from_pool c u k status d h s).1
      idle message (a_start p) = handle_start_command-IsCalled k p h s
      idle message (a_stop p) = nothing
      idle message another = nothing
      idle error d = nothing
      idle end_of_partition d = nothing
      idle timed_out d = nothing
