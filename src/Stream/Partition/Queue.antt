-- ===== src/Stream/Partition/Queue.antt =====
-- What a partition puts on the write queue.
use kafka_to_nexus.Common.{
  ℕ, ◌≡◌, List, [], ◌∷◌, Text, arith, Bool, true, false, ℤ, inl, inr, All, All-if, Any, subst, sym,
  if◌then◌else◌,
}
use kafka_to_nexus.Message.{
  Msg, FlatbufferMessage, Registry, Extracted, extracted, throws, buffer_too_small,
  flatbuffer_message,
}
use kafka_to_nexus.Kafka.{PollStatus, message}
use kafka_to_nexus.Stream.SourceFilter.{
  SourceFilter, WriteJob, filter_message, forward_buffered_message,
}
use kafka_to_nexus.Stream.SourceFilter.Safety.{
  Emits, IsAllowed, BufferIsEarly, filter_message-Emits, forward_buffered_message-Emits,
}
use kafka_to_nexus.Stream.Partition.{
  Partition, Turn, poll_for_message, poll_all, filter_extracted, process_message, check_offset,
  take_message, after_poll, count_status, should_stop_based_on_poll_status, count_error,
  filter_each, erase_finished,
}

module _ {ℓ} (P : WriteJob → Type ℓ) where
  filter_each-Emits :
      (m : FlatbufferMessage) (fs : List SourceFilter) (queue : List WriteJob)
      → All (Emits P) fs
      → All P queue
      → All (Emits P) (filter_each m fs queue).0 × All P (filter_each m fs queue).1
  unfolding filter_each
  filter_each-Emits m [] queue h q = (tt, q)
  filter_each-Emits m (f ∷ fs) queue h q =
      let s = filter_message-Emits P m f queue h.0 q in
      let r = filter_each-Emits m fs (filter_message m f queue).1 h.1 s.1 in ((s.0, r.0), r.1)

  erase_finished-Emits :
      (fs : List SourceFilter) (queue : List WriteJob)
      → All (Emits P) fs
      → All P queue
      → All (Emits P) (erase_finished fs queue).0 × All P (erase_finished fs queue).1
  unfolding erase_finished
  erase_finished-Emits [] queue h q = (tt, q)
  erase_finished-Emits (f ∷ fs) queue h q =
      let queue' : List WriteJob =
        if f.is_finished then (forward_buffered_message f queue).1 else queue in
      let r =
        erase_finished-Emits fs queue' h.1
          (All-if P f.is_finished _ _ (forward_buffered_message-Emits P f queue h.0 q) q) in
      (All-if (Emits P) f.is_finished _ _ r.0 (h.0, r.0), r.1)

  filter_extracted-Emits :
      (e : Extracted) (p : Partition) (queue : List WriteJob)
      → All (Emits P) p.source_filters
      → All P queue
      → All (Emits P) (filter_extracted e p queue).0.source_filters
        × All P (filter_extracted e p queue).1
  unfolding filter_extracted count_error
  filter_extracted-Emits (throws buffer_too_small) p queue h q = (h, q)
  filter_extracted-Emits (throws _) p queue h q = (h, q)
  filter_extracted-Emits (extracted m) p queue h q =
      let r = filter_each-Emits m p.source_filters queue h q in
      erase_finished-Emits (filter_each m p.source_filters queue).0
        (filter_each m p.source_filters queue).1 r.0 r.1

  check_offset-filters :
      (o : ℤ) (p : Partition) → (check_offset o p).source_filters ≡ p.source_filters
  unfolding check_offset
  check_offset-filters o p = ground arith

  should_stop-filters :
      (t : Turn) (st : PollStatus) (p : Partition)
      → (should_stop_based_on_poll_status t (count_status st p)).0.source_filters ≡ p.source_filters
  unfolding should_stop_based_on_poll_status count_status
  should_stop-filters t st p = ground arith

  module _ (hash : Text → ℕ) (readers : Registry) where
    -- What a state and a queue have.
    abbrev Fine : Partition × List WriteJob → Type ℓ
    Fine (p, queue) = All (Emits P) p.source_filters × All P queue

    process_message-Fine :
        (m : Msg) (p : Partition) (queue : List WriteJob)
        → Fine (p, queue)
        → Fine (process_message hash readers m p queue)
    unfolding process_message
    process_message-Fine m p queue h =
        filter_extracted-Emits (flatbuffer_message hash readers m.payload)
          (check_offset m.meta_data.offset p) queue
          (subst (All (Emits P)) (sym (check_offset-filters m.meta_data.offset p)) h.0) h.1

    Fine-if :
        (b : Bool) (r s : Partition × List WriteJob) → Fine r → Fine s → Fine (if b then r else s)
    Fine-if true r s h k = h
    Fine-if false r s h k = k

    after_poll-Fine :
        (t : Turn) (st : PollStatus) (p : Partition) (queue : List WriteJob)
        → Fine (p, queue)
        → Fine (after_poll hash readers t st p queue)
    unfolding after_poll take_message
    after_poll-Fine t message p queue h =
        let r = process_message-Fine t.polled p queue h in Fine-if _ _ _ r r
    after_poll-Fine t _ p queue h = h

    poll_for_message-Fine :
        (t : Turn) (p : Partition) (queue : List WriteJob)
        → Fine (p, queue)
        → Fine (poll_for_message hash readers t p queue)
    unfolding poll_for_message
    poll_for_message-Fine t p queue h =
        let e = subst (All (Emits P)) (sym (should_stop-filters t t.status p)) h.0 in
        Fine-if p.force_stop _ _ h (
          Fine-if t.paused _ _ h
            (Fine-if _ _ _ (e, h.1) (after_poll-Fine t t.status _ queue (e, h.1))))

    poll_all-Emits :
        (ts : List Turn) (p : Partition) (queue : List WriteJob)
        → All (Emits P) p.source_filters
        → All P queue
        → All P (poll_all hash readers ts p queue).1
    unfolding poll_all
    poll_all-Emits [] p queue h q = q
    poll_all-Emits (t ∷ ts) p queue h q =
        let r = poll_for_message-Fine t p queue (h, q) in
        poll_all-Emits ts (poll_for_message hash readers t p queue).0
          (poll_for_message hash readers t p queue).1 r.0 r.1

-- A write that the window of one of the filters allows.
abbrev pub IsAllowedByAny : List SourceFilter → WriteJob → Type 0
IsAllowedByAny fs j = Any (λ f. IsAllowed f j) fs

Emits-any :
    (P : WriteJob → Type 0) (fs : List SourceFilter)
    → ((j : WriteJob) → IsAllowedByAny fs j → P j)
    → All BufferIsEarly fs
    → All (Emits P) fs
Emits-any P [] k h = tt
Emits-any P (f ∷ fs) k h = ((h.0, λ j a. k j (inl a)), Emits-any P fs (λ j a. k j (inr a)) h.1)

-- Whatever a partition polls, and however often, and also by the destructors of the filters that it
-- erases: every write on its queue is one that the window of one of its filters allows, if that holds
-- of the queue that it started with and the filters' buffers hold only early messages.
pub poll_all-allowed :
    (hash : Text → ℕ) (readers : Registry) (ts : List Turn) (p : Partition) (queue : List WriteJob)
    → All BufferIsEarly p.source_filters
    → All (IsAllowedByAny p.source_filters) queue
    → All (IsAllowedByAny p.source_filters) (poll_all hash readers ts p queue).1
poll_all-allowed hash readers ts p queue h q =
    poll_all-Emits (IsAllowedByAny p.source_filters) hash readers ts p queue
      (Emits-any _ p.source_filters (λ j a. a) h) q
