-- ===== src/Stream/SourceFilter/Window.antt =====
-- What a source filter does with a stream of valid messages in chronological order: the refinement of
-- src/Stream/SourceFilter.cpp against a description over the whole stream.
use kafka_to_nexus.Common.{
  ◌≡◌, refl, ◌∙◌, ap, sym, ℕ, ℤ, true, false, List, [], ◌∷◌, ◌++◌, if◌then◌else◌, arith, ◌≤ℤ◌, ◌<ℤ◌,
  ◌⊎◌, inl, inr, append-nil, append_assoc, ◌&&◌, ltb_ℤ, leb_ℤ, keep, last_or, Option, none, some,
}
use kafka_to_nexus.Time.{to_timepoint, to_timepoint_mono}
use kafka_to_nexus.Message.{FlatbufferMessage}
use kafka_to_nexus.Stream.SourceFilter.{
  SourceFilter, WriteJob, filter_message, filter_all, forward_buffered_message, jobs_for,
}
use kafka_to_nexus.Stream.SourceFilter.Safety.{
  SameWindow, filter_message-SameWindow, buffered_jobs, forward_buffered_message-queue,
}

-- The messages from before the start time, and those between the two times.
abbrev pub early : ℤ → List FlatbufferMessage → List FlatbufferMessage
early start = keep (λ m. ltb_ℤ (to_timepoint m.timestamp) start)

abbrev pub wanted : ℤ → ℤ → List FlatbufferMessage → List FlatbufferMessage
wanted start stop =
    keep (λ m. leb_ℤ start (to_timepoint m.timestamp) && leb_ℤ (to_timepoint m.timestamp) stop)

no_jobs : (f : SourceFilter) → f.buffered_message.valid ≡ false → buffered_jobs f ≡ []
no_jobs f h = ground arith

abbrev pub jobs_of_last : List ℕ → Option FlatbufferMessage → List WriteJob
jobs_of_last ds none = []
jobs_of_last ds (some m) = jobs_for ds true m

abbrev pub jobs_of_all : List ℕ → List FlatbufferMessage → List WriteJob
jobs_of_all ds [] = []
jobs_of_all ds (m ∷ ms) = jobs_for ds false m ++ jobs_of_all ds ms

-- Valid messages of this source, each later than the one before, or as late where that is allowed.
abbrev pub IsStream : SourceFilter → ℤ → List FlatbufferMessage → Type 0
IsStream f last [] = Unit {0}
IsStream f last (m ∷ ms) =
    (m.valid ≡ true)
    × (m.source_hash ≡ f.source_hash)
    × (last ≤ℤ m.timestamp)
    × ((last <ℤ m.timestamp) ⊎ (f.allow_repeated_timestamps ≡ true))
    × IsStream f m.timestamp ms

abbrev pub held : SourceFilter → Option FlatbufferMessage
held f = if f.buffered_message.valid then some f.buffered_message else none

IsStream-SameWindow :
    (f g : SourceFilter) (last last' : ℤ) (ms : List FlatbufferMessage)
    → SameWindow f g
    → last' ≡ last
    → IsStream f last ms
    → IsStream g last' ms
IsStream-SameWindow f g last last' [] s e h = tt
IsStream-SameWindow f g last last' (m ∷ ms) s e h =
    let rest = IsStream-SameWindow f g m.timestamp m.timestamp ms s refl h.4 in ground arith

-- Nothing of a stream is early once a message has reached the start time.
early-nil :
    (f : SourceFilter) (last : ℤ) (ms : List FlatbufferMessage)
    → IsStream f last ms
    → f.start_time ≤ℤ to_timepoint last
    → early f.start_time ms ≡ []
early-nil f last [] h r = refl
early-nil f last (m ∷ ms) h r =
    ground (arith, to_timepoint_mono last m.timestamp, early-nil f m.timestamp ms)

wanted-nil :
    (f : SourceFilter) (last : ℤ) (ms : List FlatbufferMessage)
    → IsStream f last ms
    → f.stop_time <ℤ to_timepoint last
    → wanted f.start_time f.stop_time ms ≡ []
wanted-nil f last [] h r = refl
wanted-nil f last (m ∷ ms) h r =
    ground (arith, to_timepoint_mono last m.timestamp, wanted-nil f m.timestamp ms)

step_finished :
    (m : FlatbufferMessage) (f : SourceFilter) (queue : List WriteJob)
    → f.is_finished ≡ true
    → let r = filter_message m f queue in
      (r.1 ≡ queue)
      × (r.0.is_finished ≡ true)
      × (r.0.buffered_message ≡ f.buffered_message)
      × (r.0.destination_writer_modules ≡ f.destination_writer_modules)
unfolding filter_message
step_finished m f queue h = ground arith

-- A finished filter leaves the queue and its buffer alone.
filter_all-finished :
    (ms : List FlatbufferMessage) (f : SourceFilter) (queue : List WriteJob)
    → f.is_finished ≡ true
    → let r = filter_all ms f queue in
      (r.1 ≡ queue)
      × (r.0.buffered_message ≡ f.buffered_message)
      × (r.0.destination_writer_modules ≡ f.destination_writer_modules)
unfolding filter_all
filter_all-finished [] f queue h = (refl, refl, refl)
filter_all-finished (m ∷ ms) f queue h =
    let s = step_finished m f queue h in
    let f' : SourceFilter = (filter_message m f queue).0 in
    let q' : List WriteJob = (filter_message m f queue).1 in
    let r = filter_all-finished ms f' q' s.1 in (r.0 ∙ s.0, r.1 ∙ s.2, r.2 ∙ s.3)

-- A filter in the course of a stream whose last time stamp is `last`.
abbrev pub IsReady : SourceFilter → Type 0
IsReady f =
    (f.is_finished ≡ false)
    × (f.buffered_message.valid ≡ true → f.buffered_message.timestamp ≤ℤ f.last_seen_timestamp)

step_early :
    (m : FlatbufferMessage) (f : SourceFilter) (queue : List WriteJob) (ms : List FlatbufferMessage)
    → IsReady f
    → IsStream f f.last_seen_timestamp (m ∷ ms)
    → to_timepoint m.timestamp <ℤ f.start_time
    → let r = filter_message m f queue in
      (r.1 ≡ queue)
      × (r.0.is_finished ≡ false)
      × (r.0.buffered_message ≡ m)
      × (r.0.last_seen_timestamp ≡ m.timestamp)
unfolding filter_message
step_early m f queue ms h s t =
    ground (arith, to_timepoint_mono f.buffered_message.timestamp m.timestamp)

step_wanted :
    (m : FlatbufferMessage) (f : SourceFilter) (queue : List WriteJob) (ms : List FlatbufferMessage)
    → IsReady f
    → IsStream f f.last_seen_timestamp (m ∷ ms)
    → f.start_time ≤ℤ to_timepoint m.timestamp
    → to_timepoint m.timestamp ≤ℤ f.stop_time
    → let r = filter_message m f queue in
      (r.1 ≡ queue ++ (buffered_jobs f ++ jobs_for f.destination_writer_modules false m))
      × (r.0.is_finished ≡ false)
      × (r.0.buffered_message.valid ≡ false)
      × (r.0.last_seen_timestamp ≡ m.timestamp)
unfolding filter_message
step_wanted m f queue ms h s t u = ground (
  arith,
  append_assoc queue (jobs_for f.destination_writer_modules true f.buffered_message)
      (jobs_for f.destination_writer_modules false m),
)

step_late :
    (m : FlatbufferMessage) (f : SourceFilter) (queue : List WriteJob) (ms : List FlatbufferMessage)
    → IsReady f
    → IsStream f f.last_seen_timestamp (m ∷ ms)
    → f.start_time ≤ℤ to_timepoint m.timestamp
    → f.stop_time <ℤ to_timepoint m.timestamp
    → let r = filter_message m f queue in
      (r.1 ≡ queue ++ buffered_jobs f)
      × (r.0.is_finished ≡ true)
      × (r.0.buffered_message.valid ≡ false)
unfolding filter_message
step_late m f queue ms h s t u = ground (arith, append-nil queue)

-- Where a time stands to the window.
time_cases :
    (f : SourceFilter) (t : ℤ)
    → (t <ℤ f.start_time)
      ⊎ ((f.start_time ≤ℤ t) × (t ≤ℤ f.stop_time))
      ⊎ ((f.start_time ≤ℤ t) × (f.stop_time <ℤ t))
time_cases f t = omega arith

-- The writes that a stream should lead to: the last message from before the start time, flagged as
-- buffered, if there is one or the buffer holds one; then all messages between the two times.
abbrev pub outcome :
    List ℕ → ℤ → ℤ → Option FlatbufferMessage → List FlatbufferMessage → List WriteJob
outcome ds start stop held ms =
    jobs_of_last ds (last_or held (early start ms)) ++ jobs_of_all ds (wanted start stop ms)

abbrev pub expected : SourceFilter → List FlatbufferMessage → List WriteJob
expected f ms = outcome f.destination_writer_modules f.start_time f.stop_time (held f) ms

buffered_jobs-held :
    (f : SourceFilter) → buffered_jobs f ≡ jobs_of_last f.destination_writer_modules (held f)
buffered_jobs-held f = ground arith

expected-SameWindow :
    (f g : SourceFilter) (ms : List FlatbufferMessage) (o : Option FlatbufferMessage)
    → SameWindow f g
    → held g ≡ o
    → expected g ms ≡ outcome f.destination_writer_modules f.start_time f.stop_time o ms
expected-SameWindow f g ms o w e = λ i. outcome (w.3 i) (w.0 i) (w.1 i) (e i) ms

expected-early :
    (f : SourceFilter) (m : FlatbufferMessage) (ms : List FlatbufferMessage)
    → to_timepoint m.timestamp <ℤ f.start_time
    → expected f (m ∷ ms)
      ≡ outcome f.destination_writer_modules f.start_time f.stop_time (some m) ms
expected-early f m ms t = ground arith

expected-wanted :
    (f : SourceFilter) (m : FlatbufferMessage) (ms : List FlatbufferMessage)
    → f.start_time ≤ℤ to_timepoint m.timestamp
    → to_timepoint m.timestamp ≤ℤ f.stop_time
    → early f.start_time ms ≡ []
    → expected f (m ∷ ms)
      ≡ buffered_jobs f
        ++ (jobs_for f.destination_writer_modules false m
            ++ outcome f.destination_writer_modules f.start_time f.stop_time none ms)
expected-wanted f m ms t u e = ground (arith, buffered_jobs-held f)

expected-late :
    (f : SourceFilter) (m : FlatbufferMessage) (ms : List FlatbufferMessage)
    → f.start_time ≤ℤ to_timepoint m.timestamp
    → f.stop_time <ℤ to_timepoint m.timestamp
    → early f.start_time ms ≡ []
    → wanted f.start_time f.stop_time ms ≡ []
    → expected f (m ∷ ms) ≡ buffered_jobs f
expected-late f m ms t u e w = ground (arith, buffered_jobs-held f, append-nil (buffered_jobs f))

filter_all-expected :
    (ms : List FlatbufferMessage) (f : SourceFilter) (queue : List WriteJob)
    → IsReady f
    → IsStream f f.last_seen_timestamp ms
    → let (g, queue') = filter_all ms f queue in
      (queue' ++ buffered_jobs g) ≡ queue ++ expected f ms
unfolding filter_all
filter_all-expected [] f queue h s = ap (◌++◌ queue) (buffered_jobs-held f ∙ sym (append-nil _))
filter_all-expected (m ∷ ms) f queue h s =
    let f' : SourceFilter = (filter_message m f queue).0 in
    let q' : List WriteJob = (filter_message m f queue).1 in
    let w = filter_message-SameWindow m f queue in
    elim (time_cases f (to_timepoint m.timestamp)) [
      | inl t ↦
          let e = step_early m f queue ms h s t in
          let ih =
            filter_all-expected ms f' q' (ground arith)
              (IsStream-SameWindow f f' m.timestamp _ ms w e.3 s.4) in
          let eq = expected-SameWindow f f' ms (some m) w (ground arith) in
          ih ∙ (λ i. e.0 i ++ (eq ∙ sym (expected-early f m ms t)) i)
      | inr (inl t) ↦
          let e = step_wanted m f queue ms h s t.0 t.1 in
          let ih =
            filter_all-expected ms f' q' (ground arith)
              (IsStream-SameWindow f f' m.timestamp _ ms w e.3 s.4) in
          let eq = expected-SameWindow f f' ms none w (ground arith) in
          ih
          ∙ (λ i. e.0 i ++ eq i)
          ∙ append_assoc queue _ _
          ∙ ap (◌++◌ queue) (
              append_assoc (buffered_jobs f) _ _
              ∙ sym (expected-wanted f m ms t.0 t.1 (early-nil f m.timestamp ms s.4 t.0)))
      | inr (inr t) ↦
          let e = step_late m f queue ms h s t.0 t.1 in
          let r = filter_all-finished ms f' q' e.1 in
          let eq =
            expected-late f m ms t.0 t.1 (early-nil f m.timestamp ms s.4 t.0)
              (wanted-nil f m.timestamp ms s.4 t.1) in
          (λ i. r.0 i ++ no_jobs (filter_all ms f' q').0 (ground arith) i)
          ∙ append-nil q'
          ∙ e.0
          ∙ ap (◌++◌ queue) (sym eq)
    ]

-- A stream of valid messages of this source in chronological order, handed to a filter that holds
-- nothing and has not finished, and then the destructor: the queue gains, for each writer module, the
-- last message from before the start time, flagged as buffered, and then every message from the start
-- to the stop time, in the order of the stream and each once, and nothing else.
pub forwards_window :
    (ms : List FlatbufferMessage) (f : SourceFilter) (queue : List WriteJob)
    → f.is_finished ≡ false
    → f.buffered_message.valid ≡ false
    → IsStream f f.last_seen_timestamp ms
    → let (g, queue') = filter_all ms f queue in
      (forward_buffered_message g queue').1
      ≡ queue ++ outcome f.destination_writer_modules f.start_time f.stop_time none ms
forwards_window ms f queue h v s =
    forward_buffered_message-queue (filter_all ms f queue).0 (filter_all ms f queue).1
    ∙ filter_all-expected ms f queue (ground arith) s
    ∙ ap (◌++◌ queue)
        (λ i. outcome f.destination_writer_modules f.start_time f.stop_time (none_held i) ms)
  where
    none_held : held f ≡ none
    none_held = ground arith
