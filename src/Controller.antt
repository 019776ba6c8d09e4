-- ===== src/Controller.antt =====
-- The streams of a job: src/StreamController.{h,cpp}. The topics are owned through `std::unique_ptr`s,
-- which a move leaves null.
pub mod Streams
pub mod Setup
pub mod Throttle
mod Examples
use kafka_to_nexus.Common.{
  ℤ, pos, ℕ, Bool, true, false, not, List, [], ◌∷◌, ◌++◌, Option, none, some, if◌then◌else◌, ltb_ℤ,
  eqb_ℤ, ◌&&◌, ◌||◌,
}
use kafka_to_nexus.Time.{epoch}
use kafka_to_nexus.Stream.Topic.{Topic}
use kafka_to_nexus.Stream.Topic
use kafka_to_nexus.Stream.MessageWriter.{MessageWriter}
use kafka_to_nexus.Stream.MessageWriter

pub record Controller : Type 0 where
  pub stop_now : Bool
  pub streamers_remaining : Bool
  pub has_error : Bool
  pub streamers : List (Option Topic)
  pub writer_thread : MessageWriter
  pub stop_timestamp : ℤ
  -- The tasks that `setStopTime` has handed to the executor.
  pub stop_time_tasks : List ℤ

-- What a call leaves, or a call of a method through a null pointer.
pub data Outcome (A : Type 0) : Type 0 where
  leaves : A → Outcome A
  null_call : Outcome A

-- `Topic::isDone`; nothing stands for the `std::runtime_error` that it throws.
unfoldable pub is_done : Topic → Option Bool
is_done t = if t.has_error then none else some t.is_done

-- What `std::remove_if` and the erasure leave of the pointers, or an exception of the test on the way.
pub data Erasure : Type 0 where
  erased : List (Option Topic) → Erasure
  thrown : List (Option Topic) → Erasure
  null_test : Erasure

abbrev pub keep_first : Option Topic → Erasure → Erasure
keep_first x (erased xs) = erased (x ∷ xs)
keep_first x (thrown xs) = thrown (x ∷ xs)
keep_first x null_test = null_test

abbrev pub tail {ℓ} : {A : Type ℓ} → List A → List A
tail [] = []
tail (x ∷ xs) = xs

-- The second loop of `std::remove_if`: `gap` holds the pointers from the one that is assigned next to
-- the one before the next test. What is kept moves to the front of the gap and leaves null behind.
unfoldable pub shift : List (Option Topic) → List (Option Topic) → Erasure
shift gap [] = erased []
shift gap (none ∷ rest) = null_test
shift gap (some t ∷ rest) = elim (is_done t) [
  | none ↦ thrown (gap ++ some t ∷ rest)
  | some true ↦ shift (gap ++ some t ∷ []) rest
  | some false ↦ keep_first (some t) (shift (tail gap ++ none ∷ []) rest)
]

-- `std::remove_if` of the topics that are done: nothing moves before the first of them.
unfoldable pub remove_done : List (Option Topic) → Erasure
remove_done [] = erased []
remove_done (none ∷ rest) = null_test
remove_done (some t ∷ rest) = elim (is_done t) [
  | none ↦ thrown (some t ∷ rest)
  | some true ↦ shift (some t ∷ []) rest
  | some false ↦ keep_first (some t) (remove_done rest)
]

unfoldable pub stop_streamers : List (Option Topic) → Outcome (List (Option Topic))
stop_streamers [] = leaves []
stop_streamers (none ∷ rest) = null_call
stop_streamers (some t ∷ rest) = elim (stop_streamers rest) [
  | leaves ts ↦ leaves (some (Topic.stop t) ∷ ts)
  | null_call ↦ null_call
]

-- `stop` after its loop.
abbrev pub after_stop : Outcome (List (Option Topic)) → Controller → Outcome Controller
after_stop null_call c = null_call
after_stop (leaves ts) c = leaves (record c {
  streamers = ts;
  writer_thread = MessageWriter.stop c.writer_thread;
  stop_now = true;
})

unfoldable pub stop : Controller → Outcome Controller
stop c = after_stop (stop_streamers c.streamers) c

abbrev pub is_empty {ℓ} : {A : Type ℓ} → List A → Bool
is_empty [] = true
is_empty (x ∷ xs) = false

abbrev pub no_streamers_remaining : Outcome Controller → Outcome Controller
no_streamers_remaining (leaves c) = leaves (record c { streamers_remaining = false })
no_streamers_remaining null_call = null_call

-- `checkIfStreamsAreDone` after the erasure, and its catch clause.
abbrev pub after_erasure : Erasure → Controller → Outcome Controller
after_erasure (erased ts) c = leaves (record c {
  streamers = ts;
  streamers_remaining = if is_empty ts then false else c.streamers_remaining;
})
after_erasure (thrown ts) c =
    no_streamers_remaining (stop (record c { streamers = ts; has_error = true }))
after_erasure null_test c = null_call

unfoldable pub check_if_streams_are_done : Controller → Outcome Controller
check_if_streams_are_done c = after_erasure (remove_done c.streamers) c

-- `isDoneWriting`; the size of the file, which is updated on the way, is left out.
unfoldable pub is_done_writing : ℤ → Controller → Bool
is_done_writing now c =
    c.has_error
    || (c.stop_now
        || (not c.streamers_remaining
            && (not (eqb_ℤ c.stop_timestamp epoch) && ltb_ℤ c.stop_timestamp now)))

unfoldable pub set_stop_time : ℤ → Controller → Controller
set_stop_time s c = record c { stop_timestamp = s; stop_time_tasks = c.stop_time_tasks ++ s ∷ [] }

unfoldable pub give_stop_time : ℤ → List (Option Topic) → Outcome (List (Option Topic))
give_stop_time s [] = leaves []
give_stop_time s (none ∷ rest) = null_call
give_stop_time s (some t ∷ rest) = elim (give_stop_time s rest) [
  | leaves ts ↦ leaves (some (Topic.set_stop_time s t) ∷ ts)
  | null_call ↦ null_call
]

-- The executor runs the task of a stop time.
unfoldable pub run_stop_time : List ℤ → Controller → Outcome Controller
run_stop_time [] c = leaves c
run_stop_time (s ∷ rest) c = elim (give_stop_time s c.streamers) [
  | leaves ts ↦ leaves (record c { streamers = ts; stop_time_tasks = rest })
  | null_call ↦ null_call
]
