-- ===== src/Stream/PartitionFilter/History.antt =====
-- What the answer of a partition filter depends on: the history of the polls.
use kafka_to_nexus.Common.{
  ℤ, ◌≡◌, refl, ◌∙◌, Bool, true, false, arith, ◌&&◌, ltb_ℤ, List, [], ◌∷◌, Option, none, some, ◌≢◌,
}
use kafka_to_nexus.Time.{add_time}
use kafka_to_nexus.Kafka.{PollStatus, message, error, end_of_partition, timed_out}
use kafka_to_nexus.Stream.PartitionFilter.{
  PartitionFilter, in_error, should_stop_partition, new, sanitise,
}

-- A poll with the two readings of the clock that go with it.
pub record Poll : Type 0 where
  pub status : PollStatus
  pub now : ℤ
  pub later : ℤ

abbrev pub answer : Poll → PartitionFilter → PartitionFilter × Bool
answer q p = should_stop_partition q.status p q.now q.later

-- The filter after a history of polls.
unfoldable pub after : List Poll → PartitionFilter → PartitionFilter
after [] p = p
after (q ∷ qs) p = after qs (answer q p).0

abbrev pub since : PollStatus → ℤ → Option ℤ → Option ℤ
since error now none = some now
since error now (some t) = some t
since message now o = none
since end_of_partition now o = none
since timed_out now o = none

-- When the errors that a history ends with began, if it ends with one.
abbrev pub error_since : Option ℤ → List Poll → Option ℤ
error_since o [] = o
error_since o (q ∷ qs) = error_since (since q.status q.now o) qs

abbrev pub at_end_after : PollStatus → Bool → Bool
at_end_after message b = false
at_end_after end_of_partition b = true
at_end_after timed_out b = b
at_end_after error b = b

-- Whether the end of the partition was reached with no message after it.
abbrev pub reached_end : Bool → List Poll → Bool
reached_end b [] = b
reached_end b (q ∷ qs) = reached_end (at_end_after q.status b) qs

-- The answer that the history calls for.
abbrev pub verdict : ℤ → ℤ → ℤ → Option ℤ → Bool → PollStatus → ℤ → ℤ → Bool
verdict stop leeway limit began ended message now later = false
verdict stop leeway limit began ended end_of_partition now later = false
verdict stop leeway limit began ended timed_out now later =
    ended && ltb_ℤ (add_time stop leeway) later
verdict stop leeway limit none ended error now later = ltb_ℤ (add_time now limit) later
verdict stop leeway limit (some t) ended error now later = ltb_ℤ (add_time t limit) later

-- The filter's fields say what the history says.
abbrev Follows : PartitionFilter → Option ℤ → Bool → Type 0
Follows p none ended = (p.state ≢ in_error) × (p.at_end_of_partition ≡ ended)
Follows p (some t) ended =
    (p.state ≡ in_error) × (p.status_occurrence_time ≡ t) × (p.at_end_of_partition ≡ ended)

Follows-verdict :
    (p : PartitionFilter) (o : Option ℤ) (b : Bool) (st : PollStatus) (now later : ℤ)
    → Follows p o b
    → (should_stop_partition st p now later).1
      ≡ verdict p.stop_time p.stop_leeway p.time_limit o b st now later
unfolding should_stop_partition
Follows-verdict p none b st now later h = ground arith
Follows-verdict p (some t) b st now later h = ground arith

Follows-step :
    (p : PartitionFilter) (o : Option ℤ) (b : Bool) (st : PollStatus) (now later : ℤ)
    → Follows p o b
    → Follows (should_stop_partition st p now later).0 (since st now o) (at_end_after st b)
unfolding should_stop_partition
Follows-step p none b st now later h = ground arith
Follows-step p (some t) b st now later h = ground arith

step_keeps :
    (p : PartitionFilter) (st : PollStatus) (now later : ℤ)
    → let p' = (should_stop_partition st p now later).0 in
      (p'.stop_time ≡ p.stop_time)
      × (p'.stop_leeway ≡ p.stop_leeway)
      × (p'.time_limit ≡ p.time_limit)
unfolding should_stop_partition
step_keeps p st now later = ground arith

after-verdict :
    (qs : List Poll) (p : PartitionFilter) (o : Option ℤ) (b : Bool) (q : Poll)
    → Follows p o b
    → (answer q (after qs p)).1
      ≡ verdict p.stop_time p.stop_leeway p.time_limit
          (error_since o qs)
          (reached_end b qs)
          q.status
          q.now
          q.later
unfolding after
after-verdict [] p o b q h = Follows-verdict p o b q.status q.now q.later h
after-verdict (r ∷ qs) p o b q h =
    let k = step_keeps p r.status r.now r.later in
    after-verdict qs (answer r p).0 (since r.status r.now o) (at_end_after r.status b) q
      (Follows-step p o b r.status r.now r.later h)
    ∙ (λ i.
        verdict (k.0 i) (k.1 i) (k.2 i) (error_since (since r.status r.now o) qs)
          (reached_end (at_end_after r.status b) qs) q.status q.now q.later)

-- After any history of polls the answer to the next one is the one that the history calls for. A
-- message or the end of the partition never stops the partition. A time-out stops it exactly when the
-- end of the partition was reached with no message since, and the clock is past the sanitised stop
-- time and its leeway. An error stops it exactly when the clock is past the time limit from the first
-- of the unbroken run of errors that this one ends.
pub follows_history :
    (stop leeway limit : ℤ) (qs : List Poll) (q : Poll)
    → (answer q (after qs (new stop leeway limit))).1
      ≡ verdict
          (sanitise leeway stop)
          leeway
          limit
          (error_since none qs)
          (reached_end false qs)
          q.status
          q.now
          q.later
unfolding new
follows_history stop leeway limit qs q =
    after-verdict qs (new stop leeway limit) none false q ((λ e. cc), refl)
