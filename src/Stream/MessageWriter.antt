-- ===== src/Stream/MessageWriter.antt =====
-- The thread that writes: src/Stream/MessageWriter.{h,cpp}. The writer modules and the file are a state
-- that `write` and `flush` change; each reading of the clock comes with a step of the thread, and so does
-- the choice of the queue, which keeps the order of the jobs of one thread, and no other.
pub mod Queue
pub mod Flush
mod Examples
use kafka_to_nexus.Common.{
  ℤ, pos, negsuc, pos_part, ℕ, ◌+◌, ◌*◌, ◌/◌, ◌%◌, ◌^◌, Bool, true, false, List, [], ◌∷◌, ◌++◌,
  Text, if◌then◌else◌, ltb, leb_ℤ, ltb_ℤ, ◌==◌, ◌-ℤ◌, wrap64, length, Option, none, some,
}
use kafka_to_nexus.Time.{add_time, sub_time}
use kafka_to_nexus.Message.{FlatbufferMessage}
use kafka_to_nexus.Stream.SourceFilter.{WriteJob}

-- What a call of a writer module's `write` does: it returns, or throws a `WriterException` or another one.
pub data Written : Type 0 where
  writes writer_exception other_exception : Written

-- Where `threadFunction` stands: at the test of the loop, in `WriteOperation` with its counter, at the
-- `FlushOperation` after it, at the test after that, in the last `WriteOperation`, or past it.
pub data Place : Type 0 where
  loop_test : Place
  writing : ℕ → Place
  flushing break_test : Place
  last_writing : ℕ → Place
  ended : Place

-- A job with the thread that added it.
abbrev pub Queued : Type 0
Queued = ℕ × WriteJob

pub record MessageWriter : Type 0 where
  pub place : Place
  pub write_jobs : List Queued
  pub run_thread : Bool
  pub writes_done : ℕ
  pub write_errors : ℕ
  pub approx_queued_writes : ℕ
  pub module_error_counters : List (ℕ × ℕ)
  pub flush_interval : ℕ
  pub next_flush_time : ℤ

-- `MaxTimeCheckCounter`.
abbrev pub max_time_check_counter : ℕ
max_time_check_counter = 200

-- The caller is the thread of a partition.
unfoldable pub add_message : ℕ → WriteJob → MessageWriter → MessageWriter
add_message caller j w = record w { write_jobs = w.write_jobs ++ (caller, j) ∷ [] }

abbrev pub behind : Queued → Option (Queued × List Queued) → Option (Queued × List Queued)
behind q none = none
behind q (some (x, left)) = some (x, q ∷ left)

-- The first job of a thread, and the queue without it.
abbrev pub first_of : ℕ → List Queued → Option (Queued × List Queued)
first_of p [] = none
first_of p (q ∷ qs) = let rest = first_of p qs in if q.0 == p then some (q, qs) else behind q rest

-- `try_dequeue`: the first job of some thread that has any, where `p` is the thread tried first.
unfoldable pub try_dequeue : ℕ → List Queued → Option (Queued × List Queued)
try_dequeue p [] = none
try_dequeue p (q ∷ qs) = elim (first_of p (q ∷ qs)) [
  | none ↦ some (q, qs)
  | some found ↦ some found
]

unfoldable pub stop : MessageWriter → MessageWriter
stop w = record w { run_thread = false }

-- `(*ModuleErrorCounters[hash])++`, where a missing counter is made before.
unfoldable pub count_module_error : ℕ → List (ℕ × ℕ) → List (ℕ × ℕ)
count_module_error hash [] = (hash, 1) ∷ []
count_module_error hash ((h, n) ∷ rest) =
    if h == hash then (h, n + 1) ∷ rest else (h, n) ∷ count_module_error hash rest

-- `FlushPeriods`, which is an `int`.
abbrev pub flush_periods : ℕ → ℤ
flush_periods n =
    let low = (n + 1) % 2 ^ 32 in if ltb low (2 ^ 31) then pos low else pos low -ℤ pos (2 ^ 32)

abbrev pub scale : ℤ → ℕ → ℤ
scale (pos a) k = pos (a * k)
scale (negsuc a) k = pos 0 -ℤ pos ((a + 1) * k)

abbrev pub passed : ℤ → MessageWriter → ℕ
passed now w = pos_part (sub_time now w.next_flush_time)

-- `hash` is `std::hash<std::string>`.
module _ (hash : Text → ℕ) where
  abbrev pub generate_src_hash : Text → Text → ℕ
  generate_src_hash source flatbuffer_id = hash (source ++ flatbuffer_id)

  -- `unknown` is `UnknownModuleHash`.
  abbrev pub used_hash : ℕ → FlatbufferMessage → ℕ
  used_hash unknown m = if m.valid then generate_src_hash m.source_name m.id else unknown

  unfoldable pub count_result : ℕ → WriteJob → Written → MessageWriter → MessageWriter
  count_result unknown j writes w = record w { writes_done = w.writes_done + 1 }
  count_result unknown j writer_exception w = record w {
    write_errors = w.write_errors + 1;
    module_error_counters =
        count_module_error (used_hash unknown j.message) w.module_error_counters;
  }
  count_result unknown j other_exception w = record w { write_errors = w.write_errors + 1 }

  module _ {S : Type 0} (unknown : ℕ) (write : WriteJob → S → S × Written) (flush : S → S) where
    unfoldable pub write_msg_impl : WriteJob → MessageWriter → S → MessageWriter × S
    write_msg_impl j w s = let (s', result) = write j s in (count_result unknown j result w, s')

    unfoldable pub flush_operation : ℤ → MessageWriter → S → MessageWriter × S
    flush_operation now w s =
        if leb_ℤ w.next_flush_time now
        then (
          record w {
            approx_queued_writes = length w.write_jobs;
            next_flush_time =
                add_time w.next_flush_time (
                  wrap64
                    (scale (flush_periods (passed now w / w.flush_interval)) w.flush_interval));
          },
          flush s,
        )
        else (w, s)

    -- One turn of the loop of `WriteOperation`, at a place with a counter.
    unfoldable pub write_one :
        (ℕ → Place) → ℕ → WriteJob → ℤ → MessageWriter → S → MessageWriter × S
    write_one at counter j now w s =
        let (w', s') = write_msg_impl j w s in
        if ltb max_time_check_counter (counter + 1)
        then flush_operation now (record w' { place = at 0 }) s'
        else (record w' { place = at (counter + 1) }, s')

    unfoldable pub write_operation :
        (ℕ → Place)
        → Place
        → ℕ
        → Option (Queued × List Queued)
        → ℤ
        → MessageWriter
        → S
        → MessageWriter × S
    write_operation at next counter none now w s = (record w { place = next }, s)
    write_operation at next counter (some (q, rest)) now w s =
        write_one at counter q.1 now (record w { write_jobs = rest }) s

    -- One step of the thread, with the clock's reading and the queue's choice where they matter.
    unfoldable pub work : Place → ℤ → ℕ → MessageWriter → S → MessageWriter × S
    work loop_test now p w s =
        (record w { place = if w.run_thread then writing 0 else last_writing 0 }, s)
    work (writing counter) now p w s =
        write_operation writing flushing counter (try_dequeue p w.write_jobs) now w s
    work flushing now p w s = flush_operation now (record w { place = break_test }) s
    work break_test now p w s =
        (record w { place = if w.run_thread then loop_test else last_writing 0 }, s)
    work (last_writing counter) now p w s =
        write_operation last_writing ended counter (try_dequeue p w.write_jobs) now w s
    work ended now p w s = (w, s)

-- What the threads do: a step of the writer's, a new message from a source filter, or the stop.
pub data Action : Type 0 where
  works : ℤ × ℕ → Action
  adds : ℕ → WriteJob → Action
  stops : Action

module _ {S : Type 0} (hash : Text → ℕ) (unknown : ℕ) (write : WriteJob → S → S × Written)
    (flush : S → S) where
  unfoldable pub act : Action → MessageWriter → S → MessageWriter × S
  act (works (now, p)) w s = work hash unknown write flush w.place now p w s
  act (adds caller j) w s = (add_message caller j w, s)
  act stops w s = (stop w, s)

  unfoldable pub act_all : List Action → MessageWriter → S → MessageWriter × S
  act_all [] w s = (w, s)
  act_all (a ∷ rest) w s = let (w', s') = act a w s in act_all rest w' s'
