-- ===== src/Stream/Topic/Rounds.antt =====
-- What a round of the executor keeps: the rule that the invariants of a topic share.
use kafka_to_nexus.Common.{◌≡◌, refl, if_both, List, [], ◌∷◌}
use kafka_to_nexus.Stream.Topic.{Topic, Task, Answers, run_task, round_of, round_low}

module _ {ℓ} (P : Topic → Type ℓ) (a : Answers) (t : Topic) where
  round_low-keeps :
      (low : List Task)
      → P t
      → ((task : Task) (rest : List Task)
          → low ≡ task ∷ rest
          → P (run_task a task (record t { low_priority_task_queue = rest })))
      → P (round_low a low t)
  unfolding round_low
  round_low-keeps [] h k = h
  round_low-keeps (task ∷ rest) h k = k task rest refl

  round_high-keeps :
      (caller own : List Task)
      → P t
      → ((task : Task) (rest : List Task)
          → caller ≡ task ∷ rest
          → P (run_task a task (record t { caller_queue = rest })))
      → ((task : Task) (rest : List Task)
          → own ≡ task ∷ rest
          → P (run_task a task (record t { task_queue = rest })))
      → ((task : Task) (rest : List Task)
          → t.low_priority_task_queue ≡ task ∷ rest
          → P (run_task a task (record t { low_priority_task_queue = rest })))
      → P (round_of a caller own t)
  unfolding round_of
  round_high-keeps [] [] h k o l = round_low-keeps t.low_priority_task_queue h l
  round_high-keeps (task ∷ rest) [] h k o l = k task rest refl
  round_high-keeps [] (task ∷ rest) h k o l = o task rest refl
  round_high-keeps (task ∷ rest) (own ∷ own_rest) h k o l =
      if_both P a.caller_first (run_task a task (record t { caller_queue = rest }))
        (run_task a own (record t { task_queue = own_rest })) (k task rest refl)
        (o own own_rest refl)

  -- A property is kept by a round if it is kept by the task at the head of any of the queues.
  pub round-keeps :
      P t
      → ((task : Task) (rest : List Task)
          → t.caller_queue ≡ task ∷ rest
          → P (run_task a task (record t { caller_queue = rest })))
      → ((task : Task) (rest : List Task)
          → t.task_queue ≡ task ∷ rest
          → P (run_task a task (record t { task_queue = rest })))
      → ((task : Task) (rest : List Task)
          → t.low_priority_task_queue ≡ task ∷ rest
          → P (run_task a task (record t { low_priority_task_queue = rest })))
      → P (round_of a t.caller_queue t.task_queue t)
  round-keeps = round_high-keeps t.caller_queue t.task_queue
