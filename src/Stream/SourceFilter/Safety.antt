-- ===== src/Stream/SourceFilter/Safety.antt =====
-- What a source filter may put on the write queue, whatever messages it is handed.
use kafka_to_nexus.Common.{
  ◌≡◌, refl, ℕ, Bool, true, false, List, [], ◌∷◌, ◌++◌, if◌then◌else◌, arith, All, All-append, ◌≤ℤ◌,
  ◌<ℤ◌, ◌⊎◌, inl, inr, append-nil, append_assoc, ◌↔◌, ◌≢◌,
}
use kafka_to_nexus.Time.{to_timepoint}
use kafka_to_nexus.Message.{FlatbufferMessage}
use kafka_to_nexus.Stream.SourceFilter.{
  SourceFilter, WriteJob, filter_message, filter_all, forward_buffered_message, jobs_for,
}

-- A message that the buffer may hold: a valid one from before the start time.
abbrev pub IsEarly : SourceFilter → FlatbufferMessage → Type 0
IsEarly f m = (m.valid ≡ true) × (to_timepoint m.timestamp <ℤ f.start_time)

-- A message that is wanted for what it is: a valid one between the two times.
abbrev pub IsWanted : SourceFilter → FlatbufferMessage → Type 0
IsWanted f m =
    (m.valid ≡ true)
    × (m.source_hash ≡ f.source_hash)
    × (f.start_time ≤ℤ to_timepoint m.timestamp)
    × (to_timepoint m.timestamp ≤ℤ f.stop_time)

-- A write that the times allow: flagged as buffered if and only if it is from before the start.
abbrev pub IsAllowed : SourceFilter → WriteJob → Type 0
IsAllowed f j =
    ((j.is_buffered_message ≡ true) × IsEarly f j.message)
    ⊎ ((j.is_buffered_message ≡ false) × IsWanted f j.message)

abbrev pub BufferIsEarly : SourceFilter → Type 0
BufferIsEarly f = f.buffered_message.valid ≡ true → IsEarly f f.buffered_message

-- What stays as it is while messages are filtered.
abbrev pub SameWindow : SourceFilter → SourceFilter → Type 0
SameWindow f g =
    (g.start_time ≡ f.start_time)
    × (g.stop_time ≡ f.stop_time)
    × (g.source_hash ≡ f.source_hash)
    × (g.destination_writer_modules ≡ f.destination_writer_modules)
    × (g.allow_repeated_timestamps ≡ f.allow_repeated_timestamps)

pub filter_message-SameWindow :
    (m : FlatbufferMessage) (f : SourceFilter) (queue : List WriteJob)
    → SameWindow f (filter_message m f queue).0
unfolding filter_message
filter_message-SameWindow m f queue = ground arith

filter_message-BufferIsEarly :
    (m : FlatbufferMessage) (f : SourceFilter) (queue : List WriteJob)
    → BufferIsEarly f
    → BufferIsEarly (filter_message m f queue).0
unfolding filter_message
filter_message-BufferIsEarly m f queue h = ground arith

-- A filter forwards a message for what it is exactly when it has not finished, the message is wanted
-- (valid, of this source, and between the two times), and its time stamp is not a repeated one that
-- the filter does not allow.
pub forwarded_iff :
    (m : FlatbufferMessage) (f : SourceFilter) (queue : List WriteJob)
    → ((filter_message m f queue).2 ≡ true) ↔ (
        (f.is_finished ≡ false)
        × IsWanted f m
        × ((m.timestamp ≢ f.last_seen_timestamp) ⊎ (f.allow_repeated_timestamps ≡ true)))
unfolding filter_message
forwarded_iff m f queue = ground arith

-- The jobs that empty the buffer.
abbrev pub buffered_jobs : SourceFilter → List WriteJob
buffered_jobs f =
    if f.buffered_message.valid
    then jobs_for f.destination_writer_modules true f.buffered_message
    else []

-- What one message adds to the queue.
abbrev pub emitted : FlatbufferMessage → SourceFilter → Bool → Bool → List WriteJob
emitted m f finishes true = buffered_jobs f ++ jobs_for f.destination_writer_modules false m
emitted m f true false = buffered_jobs f
emitted m f false false = []

-- Whether this message makes the filter finish.
abbrev pub finishes : FlatbufferMessage → SourceFilter → List WriteJob → Bool
finishes m f queue = if f.is_finished then false else (filter_message m f queue).0.is_finished

pub filter_message-queue :
    (m : FlatbufferMessage) (f : SourceFilter) (queue : List WriteJob)
    → (filter_message m f queue).1
      ≡ queue ++ emitted m f (finishes m f queue) (filter_message m f queue).2
unfolding filter_message
filter_message-queue m f queue = ground (
  arith,
  append-nil queue,
  append_assoc queue (jobs_for f.destination_writer_modules true f.buffered_message)
      (jobs_for f.destination_writer_modules false m),
)

pub forward_buffered_message-queue :
    (f : SourceFilter) (queue : List WriteJob)
    → (forward_buffered_message f queue).1 ≡ queue ++ buffered_jobs f
unfolding forward_buffered_message
forward_buffered_message-queue f queue = ground (arith, append-nil queue)

jobs_for-All {ℓ} :
    (P : WriteJob → Type ℓ) (ds : List ℕ) (b : Bool) (m : FlatbufferMessage)
    → ((d : ℕ) → P (record { destination = d; message = m; is_buffered_message = b }))
    → All P (jobs_for ds b m)
jobs_for-All P [] b m h = tt
jobs_for-All P (d ∷ ds) b m h = (h d, jobs_for-All P ds b m h)

All-when {ℓ} :
    (P : WriteJob → Type ℓ) (b : Bool) (js : List WriteJob)
    → (b ≡ true → All P js)
    → All P (if b then js else [])
All-when P true js h = h refl
All-when P false js h = tt

buffered_jobs-All : (f : SourceFilter) → BufferIsEarly f → All (IsAllowed f) (buffered_jobs f)
buffered_jobs-All f h =
    All-when (IsAllowed f) f.buffered_message.valid _
      (λ v. jobs_for-All (IsAllowed f) _ true f.buffered_message (λ d. inl (refl, h v)))

emitted-All :
    (m : FlatbufferMessage) (f : SourceFilter) (ends sent : Bool)
    → BufferIsEarly f
    → (sent ≡ true → IsWanted f m)
    → All (IsAllowed f) (emitted m f ends sent)
emitted-All m f ends true h w =
    All-append (IsAllowed f) (buffered_jobs f) _ (buffered_jobs-All f h)
      (jobs_for-All (IsAllowed f) f.destination_writer_modules false m (λ d. inr (refl, w refl)))
emitted-All m f true false h w = buffered_jobs-All f h
emitted-All m f false false h w = tt

filter_message-IsAllowed :
    (m : FlatbufferMessage) (f : SourceFilter) (queue : List WriteJob)
    → BufferIsEarly f
    → All (IsAllowed f) queue
    → All (IsAllowed f) (filter_message m f queue).1
filter_message-IsAllowed m f queue h q = rw (filter_message-queue m f queue) (
    All-append (IsAllowed f) queue _ q
      (emitted-All m f _ _ h (λ e. ((forwarded_iff m f queue).0 e).1)))

IsAllowed-SameWindow :
    (f g : SourceFilter) (js : List WriteJob)
    → SameWindow f g
    → All (IsAllowed f) js
    → All (IsAllowed g) js
IsAllowed-SameWindow f g [] s h = tt
IsAllowed-SameWindow f g (j ∷ js) s h = (ground arith, IsAllowed-SameWindow f g js s h.1)

filter_all-IsAllowed :
    (ms : List FlatbufferMessage) (f : SourceFilter) (queue : List WriteJob)
    → BufferIsEarly f
    → All (IsAllowed f) queue
    → let (g, queue') = filter_all ms f queue in
      SameWindow f g × BufferIsEarly g × All (IsAllowed f) queue'
unfolding filter_all
filter_all-IsAllowed [] f queue h q = (ground arith, h, q)
filter_all-IsAllowed (m ∷ ms) f queue h q =
    let f' : SourceFilter = (filter_message m f queue).0 in
    let q' : List WriteJob = (filter_message m f queue).1 in
    let same : SameWindow f f' = filter_message-SameWindow m f queue in
    let rest : (let (g, queue') = filter_all ms f' q' in
        SameWindow f' g × BufferIsEarly g × All (IsAllowed f') queue') =
      filter_all-IsAllowed ms f' q' (filter_message-BufferIsEarly m f queue h)
        (IsAllowed-SameWindow f f' q' same (filter_message-IsAllowed m f queue h q)) in
    (ground arith, rest.1, IsAllowed-SameWindow f' f _ (ground arith) rest.2)

-- Whatever messages a filter is handed, in whatever order, and once its destructor has run, the queue
-- has gained only writes that the window allows: those flagged as buffered hold a valid message from
-- before the start time, all others a valid message of this source that is neither before the start
-- nor after the stop time.
pub queue-IsAllowed :
    (ms : List FlatbufferMessage) (f : SourceFilter) (queue : List WriteJob)
    → BufferIsEarly f
    → All (IsAllowed f) queue
    → let (g, queue') = filter_all ms f queue in
      All (IsAllowed f) (forward_buffered_message g queue').1
queue-IsAllowed ms f queue h q =
    let g : SourceFilter = (filter_all ms f queue).0 in
    let queue' : List WriteJob = (filter_all ms f queue).1 in
    let r = filter_all-IsAllowed ms f queue h q in
    IsAllowed-SameWindow g f _ (ground arith) (
      rw (forward_buffered_message-queue g queue') (
        All-append (IsAllowed g) queue' _ (IsAllowed-SameWindow f g queue' r.0 r.2)
          (buffered_jobs-All g r.1)))

All-map {ℓ κ} :
    {A : Type 0} (P : A → Type ℓ) (Q : A → Type κ) (xs : List A)
    → ((x : A) → P x → Q x)
    → All P xs
    → All Q xs
All-map P Q [] f h = tt
All-map P Q (x ∷ xs) f h = (f x h.0, All-map P Q xs f h.1)

-- What a filter may emit has a property `P`, and so has what waits in its buffer.
abbrev pub Emits {ℓ} : (WriteJob → Type ℓ) → SourceFilter → Type ℓ
Emits P f = BufferIsEarly f × ((j : WriteJob) → IsAllowed f j → P j)

pub filter_message-Emits {ℓ} :
    (P : WriteJob → Type ℓ) (m : FlatbufferMessage) (f : SourceFilter) (queue : List WriteJob)
    → Emits P f
    → All P queue
    → Emits P (filter_message m f queue).0 × All P (filter_message m f queue).1
filter_message-Emits P m f queue h q =
    let f' : SourceFilter = (filter_message m f queue).0 in
    let w : SameWindow f f' = filter_message-SameWindow m f queue in
    (
      (
        filter_message-BufferIsEarly m f queue h.0,
        λ j a. h.1 j (IsAllowed-SameWindow f' f (j ∷ []) (ground arith) (a, tt)).0,
      ),
      rw (filter_message-queue m f queue) (
          All-append P queue _ q (
            All-map (IsAllowed f) P _ h.1
              (emitted-All m f _ _ h.0 (λ e. ((forwarded_iff m f queue).0 e).1)))),
    )

pub forward_buffered_message-Emits {ℓ} :
    (P : WriteJob → Type ℓ) (f : SourceFilter) (queue : List WriteJob)
    → Emits P f
    → All P queue
    → All P (forward_buffered_message f queue).1
forward_buffered_message-Emits P f queue h q =
    rw (forward_buffered_message-queue f queue)
      (All-append P queue _ q (All-map (IsAllowed f) P _ h.1 (buffered_jobs-All f h.0)))
