-- ===== src/Controller/Streams.antt =====
-- What the check of the streams does: with no error, with an error, and where it fails.
use kafka_to_nexus.Common.{
  ℤ, ◌≡◌, refl, sym, ap, subst, true, false, List, [], ◌∷◌, ◌++◌, map, All, Option, none, some,
  arith, if◌then◌else◌,
}
use kafka_to_nexus.Stream.Topic.{Topic}
use kafka_to_nexus.Stream.Topic
use kafka_to_nexus.Stream.MessageWriter.{MessageWriter}
use kafka_to_nexus.Stream.MessageWriter
use kafka_to_nexus.Controller.{
  Controller, leaves, null_call, is_done, erased, thrown, shift, tail, remove_done, stop_streamers,
  stop, is_empty, no_streamers_remaining, check_if_streams_are_done, is_done_writing,
}

abbrev pub some_of : List Topic → List (Option Topic)
some_of [] = []
some_of (t ∷ ts) = some t ∷ some_of ts

-- The topics that are not done.
abbrev pub unfinished : List Topic → List Topic
unfinished [] = []
unfinished (t ∷ ts) = if t.is_done then unfinished ts else t ∷ unfinished ts

abbrev pub IsHealthy : List Topic → Type 0
IsHealthy = All (λ t. t.has_error ≡ false)

-- Healthy topics that are not done.
abbrev pub IsRunning : List Topic → Type 0
IsRunning = All (λ t. (t.has_error ≡ false) × (t.is_done ≡ false))

shift-unfinished :
    (gap : List (Option Topic)) (ts : List Topic)
    → IsHealthy ts
    → shift gap (some_of ts) ≡ erased (some_of (unfinished ts))
unfolding shift is_done
shift-unfinished gap [] h = refl
shift-unfinished gap (t ∷ ts) h = ground (
  arith,
  shift-unfinished (gap ++ some t ∷ []) ts h.1,
  shift-unfinished (tail gap ++ none ∷ []) ts h.1,
)

remove_done-unfinished :
    (ts : List Topic) → IsHealthy ts → remove_done (some_of ts) ≡ erased (some_of (unfinished ts))
unfolding remove_done is_done
remove_done-unfinished [] h = refl
remove_done-unfinished (t ∷ ts) h =
    ground (arith, shift-unfinished (some t ∷ []) ts h.1, remove_done-unfinished ts h.1)

-- While no topic has an error, the check removes exactly the topics that are done and keeps the others
-- in their order; the streams are over when none is left, and nothing else of the state changes.
pub check-unfinished :
    (ts : List Topic) (c : Controller)
    → IsHealthy ts
    → c.streamers ≡ some_of ts
    → check_if_streams_are_done c
      ≡ leaves (record c {
        streamers = some_of (unfinished ts);
        streamers_remaining =
            if is_empty (some_of (unfinished ts)) then false else c.streamers_remaining;
      })
unfolding check_if_streams_are_done
check-unfinished ts c h e = rw (e, remove_done-unfinished ts h) refl

-- All topics are told to stop.
stop_streamers-some :
    (ts : List Topic) → stop_streamers (some_of ts) ≡ leaves (some_of (map Topic.stop ts))
unfolding stop_streamers
stop_streamers-some [] = refl
stop_streamers-some (t ∷ ts) = rw (stop_streamers-some ts, stop_streamers) refl

stop-some :
    (ts : List Topic) (c : Controller)
    → c.streamers ≡ some_of ts
    → stop c
      ≡ leaves (record c {
        streamers = some_of (map Topic.stop ts);
        writer_thread = MessageWriter.stop c.writer_thread;
        stop_now = true;
      })
unfolding stop
stop-some ts c e = rw (e, stop_streamers-some ts) refl

-- An error that no finished topic comes before leaves the topics as they are.
remove_done-thrown :
    (ts : List Topic) (f : Topic) (rest : List (Option Topic))
    → IsRunning ts
    → f.has_error ≡ true
    → remove_done (some_of ts ++ some f ∷ rest) ≡ thrown (some_of ts ++ some f ∷ rest)
unfolding remove_done is_done
remove_done-thrown [] f rest h e = ground arith
remove_done-thrown (t ∷ ts) f rest h e = ground (arith, remove_done-thrown ts f rest h.1 e)

-- The state in which a failed topic leaves the streams.
abbrev pub failed_state : List Topic → Controller → Controller
failed_state ts c = record c {
  streamers = some_of (map Topic.stop ts);
  writer_thread = MessageWriter.stop c.writer_thread;
  stop_now = true;
  has_error = true;
  streamers_remaining = false;
}

-- A topic that has failed, after topics that are running: the check tells all topics and the writer to
-- stop and notes the error, and from then on writing is over, whatever the time and the stop time.
stream_error_stops :
    (ts rest : List Topic) (f : Topic) (c : Controller)
    → IsRunning ts
    → f.has_error ≡ true
    → c.streamers ≡ some_of (ts ++ f ∷ rest)
    → (check_if_streams_are_done c ≡ leaves (failed_state (ts ++ f ∷ rest) c))
      × ((now : ℤ) → is_done_writing now (failed_state (ts ++ f ∷ rest) c) ≡ true)
unfolding check_if_streams_are_done is_done_writing
stream_error_stops ts rest f c h e q =
    (rw (q, thrown_at) (ap no_streamers_remaining (stop-some (ts ++ f ∷ rest) _ refl)), λ now. refl)
  where
    some_of-append :
        (ts : List Topic) → some_of (ts ++ f ∷ rest) ≡ some_of ts ++ some f ∷ some_of rest
    some_of-append [] = refl
    some_of-append (t ∷ ts) = ap (λ xs. some t ∷ xs) (some_of-append ts)

    thrown_at : remove_done (some_of (ts ++ f ∷ rest)) ≡ thrown (some_of (ts ++ f ∷ rest))
    thrown_at =
        subst (λ xs. remove_done xs ≡ thrown xs) (sym (some_of-append ts))
          (remove_done-thrown ts f (some_of rest) h e)

-- A topic that has failed, after one that is done and one that is running: the removal has moved the
-- running one over the done one and left null behind, and telling the topics to stop calls through it.
pub stream_error_null_call :
    (d r f : Topic) (rest : List Topic) (c : Controller)
    → d.has_error ≡ false
    → d.is_done ≡ true
    → IsRunning (r ∷ [])
    → f.has_error ≡ true
    → c.streamers ≡ some_of (d ∷ r ∷ f ∷ rest)
    → check_if_streams_are_done c ≡ null_call
unfolding check_if_streams_are_done stop remove_done shift is_done stop_streamers
stream_error_null_call d r f rest c a b h e q = ground arith
