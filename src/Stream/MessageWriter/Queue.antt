-- ===== src/Stream/MessageWriter/Queue.antt =====
-- Every job is written once, those of each thread in order, and the thread ends with an empty queue.
use kafka_to_nexus.Common.{
  ℤ, ℕ, ◌+◌, ◌-◌, ◌≤◌, ◌≡◌, ◌⊎◌, refl, map, false, List, [], ◌∷◌, ◌++◌, Text, arith, length,
  append-nil, length-append, append_assoc, Option, none, some, Bool-cases, inl, inr, ap, sym, ◌∙◌,
  map-append, ◌==◌, if◌then◌else◌,
}
use kafka_to_nexus.Stream.SourceFilter.{WriteJob}
use kafka_to_nexus.Stream.MessageWriter.{
  MessageWriter, Queued, behind, first_of, try_dequeue, Written, Place, loop_test, writing,
  flushing, break_test, last_writing, ended, count_result, write_msg_impl, flush_operation,
  write_one, write_operation, work, Action, works, adds, stops, act, act_all, add_message, stop,
}

-- The jobs that are added by some actions.
abbrev pub added : List Action → List Queued
added [] = []
added (adds caller j ∷ rest) = (caller, j) ∷ added rest
added (works now ∷ rest) = added rest
added (stops ∷ rest) = added rest

-- The jobs of one thread.
abbrev pub jobs_of : ℕ → List Queued → List WriteJob
jobs_of p [] = []
jobs_of p (q ∷ qs) = if q.0 == p then q.1 ∷ jobs_of p qs else jobs_of p qs

abbrev pub jobs : List Queued → List WriteJob
jobs = map (λ q. q.1)

jobs_of-append : (p : ℕ) (xs ys : List Queued) → jobs_of p (xs ++ ys) ≡ jobs_of p xs ++ jobs_of p ys
jobs_of-append p [] ys = refl
jobs_of-append p (x ∷ xs) ys = ground (arith, jobs_of-append p xs ys)

-- One job was taken off a queue, where each thread's jobs keep their order.
record IsTaken (qs : List Queued) (q : Queued) (rest : List Queued) : Type 0 where
  each : (p : ℕ) → jobs_of p (q ∷ rest) ≡ jobs_of p qs
  fewer : length qs ≡ length rest + 1

abbrev Takes : List Queued → Option (Queued × List Queued) → Type 0
Takes qs none = qs ≡ []
Takes qs (some (q, rest)) = IsTaken qs q rest

abbrev Finds : ℕ → List Queued → Option (Queued × List Queued) → Type 0
Finds p qs none = Unit {0}
Finds p qs (some (q, rest)) = (q.0 ≡ p) × IsTaken qs q rest

IsTaken-first : (q : Queued) (qs : List Queued) → IsTaken (q ∷ qs) q qs
IsTaken-first q qs = record { each = λ p. refl; fewer = omega arith }

Finds-behind :
    (p : ℕ) (q : Queued) (qs : List Queued) (o : Option (Queued × List Queued))
    → (q.0 == p) ≡ false
    → Finds p qs o
    → Finds p (q ∷ qs) (behind q o)
Finds-behind p q qs none n h = tt
Finds-behind p q qs (some (x, left)) n h = (
  h.0,
  record { each = λ r. ground (arith, h.0, n, h.1.each r); fewer = omega (arith, h.1.fewer) },
)

first_of-Finds : (p : ℕ) (qs : List Queued) → Finds p qs (first_of p qs)
first_of-Finds p [] = tt
first_of-Finds p (q ∷ qs) = elim (Bool-cases (q.0 == p)) [
  | inl e ↦ rw e (ground (arith, e), IsTaken-first q qs)
  | inr e ↦ rw e (Finds-behind p q qs (first_of p qs) e (first_of-Finds p qs))
]

try_dequeue-Takes : (p : ℕ) (qs : List Queued) → Takes qs (try_dequeue p qs)
unfolding try_dequeue
try_dequeue-Takes p [] = refl
try_dequeue-Takes p (q ∷ qs) = taken (first_of p (q ∷ qs)) (first_of-Finds p (q ∷ qs))
  where
    taken :
        (o : Option (Queued × List Queued))
        → Finds p (q ∷ qs) o
        → Takes (q ∷ qs) (elim o [ none ↦ some (q, qs) | some found ↦ some found ])
    taken none h = IsTaken-first q qs
    taken (some (x, rest)) h = h.1

-- Steps to the end from a place, with a number of jobs.
abbrev pub steps_from : Place → ℕ → ℕ
steps_from loop_test n = n + 2
steps_from (writing c) n = n + 4
steps_from flushing n = n + 3
steps_from break_test n = n + 2
steps_from (last_writing c) n = n + 1
steps_from ended n = 0

abbrev steps_left : MessageWriter → ℕ
steps_left w = steps_from w.place (length w.write_jobs)

count_result-keeps :
    (hash : Text → ℕ) (unknown : ℕ) (j : WriteJob) (r : Written) (w : MessageWriter)
    → let w' = count_result hash unknown j r w in
      (w'.write_jobs ≡ w.write_jobs)
      × (w'.run_thread ≡ w.run_thread)
      × (w'.place ≡ w.place)
      × (w'.writes_done + w'.write_errors ≡ w.writes_done + w.write_errors + 1)
unfolding count_result
count_result-keeps hash unknown j r w = ground arith

module _ {S : Type 0} (hash : Text → ℕ) (unknown : ℕ) (write : WriteJob → S → S × Written)
    (flush : S → S) where
  flush_operation-keeps :
      (now : ℤ) (w : MessageWriter) (s : S)
      → let w' = (flush_operation hash unknown write flush now w s).0 in
        (w'.write_jobs ≡ w.write_jobs)
        × (w'.run_thread ≡ w.run_thread)
        × (w'.place ≡ w.place)
        × (w'.writes_done + w'.write_errors ≡ w.writes_done + w.write_errors)
  unfolding flush_operation
  flush_operation-keeps now w s = ground arith

  write_one-keeps :
      (at : ℕ → Place) (counter : ℕ) (j : WriteJob) (now : ℤ) (w : MessageWriter) (s : S)
      → let w' = (write_one hash unknown write flush at counter j now w s).0 in
        (w'.write_jobs ≡ w.write_jobs)
        × (w'.run_thread ≡ w.run_thread)
        × ((w'.place ≡ at 0) ⊎ (w'.place ≡ at (counter + 1)))
        × (w'.writes_done + w'.write_errors ≡ w.writes_done + w.write_errors + 1)
  unfolding write_one write_msg_impl
  write_one-keeps at counter j now w s =
      let w' = count_result hash unknown j (write j s).1 w in
      ground (
        arith,
        count_result-keeps hash unknown j (write j s).1 w,
        flush_operation-keeps now (record w' { place = at 0 }) (write j s).0,
      )

  -- A step that the thread takes while it is told to stop.
  record Ends (w w' : MessageWriter) : Type 0 where
    still : w'.run_thread ≡ false
    fewer : steps_left w' ≤ steps_left w - 1
    empty : (w.place ≡ ended → w.write_jobs ≡ []) → w'.place ≡ ended → w'.write_jobs ≡ []

  writing-Ends :
      (o : Option (Queued × List Queued)) (c : ℕ) (now : ℤ) (w : MessageWriter) (s : S)
      → Takes w.write_jobs o
      → w.place ≡ writing c
      → w.run_thread ≡ false
      → Ends w (write_operation hash unknown write flush writing flushing c o now w s).0
  unfolding write_operation
  writing-Ends none c now w s h e r = ground arith
  writing-Ends (some (q, rest)) c now w s h e r =
      ground (arith, h.fewer, write_one-keeps writing c q.1 now (record w { write_jobs = rest }) s)

  last_writing-Ends :
      (o : Option (Queued × List Queued)) (c : ℕ) (now : ℤ) (w : MessageWriter) (s : S)
      → Takes w.write_jobs o
      → w.place ≡ last_writing c
      → w.run_thread ≡ false
      → Ends w (write_operation hash unknown write flush last_writing ended c o now w s).0
  unfolding write_operation
  last_writing-Ends none c now w s h e r = ground arith
  last_writing-Ends (some (q, rest)) c now w s h e r =
      ground
        (arith, h.fewer, write_one-keeps last_writing c q.1 now (record w { write_jobs = rest }) s)

  work-Ends :
      (p : Place) (now : ℤ) (k : ℕ) (w : MessageWriter) (s : S)
      → w.place ≡ p
      → w.run_thread ≡ false
      → Ends w (work hash unknown write flush p now k w s).0
  unfolding work
  work-Ends loop_test now k w s e r = ground arith
  work-Ends (writing c) now k w s e r =
      writing-Ends (try_dequeue k w.write_jobs) c now w s (try_dequeue-Takes k w.write_jobs) e r
  work-Ends flushing now k w s e r =
      ground (arith, flush_operation-keeps now (record w { place = break_test }) s)
  work-Ends break_test now k w s e r = ground arith
  work-Ends (last_writing c) now k w s e r =
      last_writing-Ends (try_dequeue k w.write_jobs) c now w s (try_dequeue-Takes k w.write_jobs) e
        r
  work-Ends ended now k w s e r = ground arith

  works_all-Ends :
      (ts : List (ℤ × ℕ)) (w : MessageWriter) (s : S)
      → w.run_thread ≡ false
      → (w.place ≡ ended → w.write_jobs ≡ [])
      → let w' = (act_all hash unknown write flush (map works ts) w s).0 in
        (steps_left w' ≤ steps_left w - length ts) × (w'.place ≡ ended → w'.write_jobs ≡ [])
  unfolding act_all act
  works_all-Ends [] w s r h = (omega arith, h)
  works_all-Ends ((t, p) ∷ ts) w s r h =
      let k = work-Ends w.place t p w s refl r in
      let n =
        works_all-Ends ts (work hash unknown write flush w.place t p w s).0
          (work hash unknown write flush w.place t p w s).1 k.still (k.empty h) in
      (omega (arith, k.fewer, n.0), n.1)

  ended_of_none : (w : MessageWriter) → steps_left w ≤ 0 → w.place ≡ ended
  ended_of_none w h = elim_place w.place refl
    where
      elim_place : (p : Place) → w.place ≡ p → w.place ≡ ended
      elim_place ended e = e
      elim_place loop_test e = ground arith
      elim_place (writing c) e = ground arith
      elim_place flushing e = ground arith
      elim_place break_test e = ground arith
      elim_place (last_writing c) e = ground arith

  bounded_steps : (w : MessageWriter) → steps_left w ≤ length w.write_jobs + 4
  bounded_steps w = ground arith

  stop-ends :
      (ts : List (ℤ × ℕ)) (w : MessageWriter) (s : S)
      → (w.place ≡ ended → w.write_jobs ≡ [])
      → length w.write_jobs + 4 ≤ length ts
      → let w' = (act_all hash unknown write flush (stops ∷ map works ts) w s).0 in
        (w'.place ≡ ended) × (w'.write_jobs ≡ [])
  unfolding act_all act stop
  stop-ends ts w s h n =
      let w' : MessageWriter = (act_all hash unknown write flush (map works ts) (stop w) s).0 in
      let k = works_all-Ends ts (stop w) s refl h in
      let e : w'.place ≡ ended = ended_of_none w' (omega (arith, k.0, n, bounded_steps (stop w))) in
      (e, k.1 e)

added-works : (ts : List (ℤ × ℕ)) → added (map works ts) ≡ []
added-works [] = refl
added-works (t ∷ ts) = added-works ts

module _ {S : Type 0} (hash : Text → ℕ) (unknown : ℕ) (write : WriteJob → S → S × Written)
    (flush : S → S) (log : S → List WriteJob)
    (logs : (j : WriteJob) (s : S) → log (write j s).0 ≡ log s ++ j ∷ [])
    (keeps : (s : S) → log (flush s) ≡ log s) where
  -- The jobs `ws` were written after those of `before`; with those still queued they are the jobs `qs`,
  -- those of each thread in their order; and how many were counted and are still queued.
  pub record Accounts (before : List WriteJob) (qs : List Queued) (n : ℕ) (w : MessageWriter)
      (s : S) (ws : List Queued) : Type 0 where
    pub written : log s ≡ before ++ jobs ws
    pub each : (p : ℕ) → jobs_of p (ws ++ w.write_jobs) ≡ jobs_of p qs
    pub number : w.writes_done + w.write_errors + length w.write_jobs ≡ n

  flush-log :
      (now : ℤ) (w : MessageWriter) (s : S)
      → log (flush_operation hash unknown write flush now w s).1 ≡ log s
  unfolding flush_operation
  flush-log now w s = ground (arith, keeps s)

  write_one-log :
      (at : ℕ → Place) (counter : ℕ) (j : WriteJob) (now : ℤ) (w : MessageWriter) (s : S)
      → log (write_one hash unknown write flush at counter j now w s).1 ≡ log s ++ j ∷ []
  unfolding write_one write_msg_impl
  write_one-log at counter j now w s =
      let w' = count_result hash unknown j (write j s).1 w in
      ground (arith, logs j s, flush-log now (record w' { place = at 0 }) (write j s).0)

  abbrev Accounted : List WriteJob → List Queued → ℕ → MessageWriter × S → Type 0
  Accounted before qs n (w, s) = (ws : List Queued) × Accounts before qs n w s ws

  write_operation-Accounted :
      (at : ℕ → Place) (next : Place) (counter : ℕ) (o : Option (Queued × List Queued)) (now : ℤ)
      (w : MessageWriter) (s : S) (before : List WriteJob) (qs : List Queued) (n : ℕ)
      → Takes w.write_jobs o
      → Accounted before qs n (w, s)
      → Accounted before qs n (write_operation hash unknown write flush at next counter o now w s)
  unfolding write_operation
  write_operation-Accounted at next counter none now w s before qs n t (ws, h) =
      (ws, record { written = h.written; each = h.each; number = h.number })
  write_operation-Accounted at next counter (some (q, rest)) now w s before qs n t (ws, h) =
      let w1 : MessageWriter = record w { write_jobs = rest } in
      let w' : MessageWriter = (write_one hash unknown write flush at counter q.1 now w1 s).0 in
      let k = write_one-keeps hash unknown write flush at counter q.1 now w1 s in
      (
        ws ++ q ∷ [],
        record {
          written =
              write_one-log at counter q.1 now w1 s
              ∙ ap (λ l. l ++ q.1 ∷ []) h.written
              ∙ append_assoc before (jobs ws) (q.1 ∷ [])
              ∙ ap (λ l. before ++ l) (sym (map-append (λ x. x.1) ws (q ∷ [])));
          each = λ p.
              ap (λ l. jobs_of p ((ws ++ q ∷ []) ++ l)) k.0
              ∙ ap (jobs_of p) (append_assoc ws (q ∷ []) rest)
              ∙ jobs_of-append p ws (q ∷ rest)
              ∙ ap (λ l. jobs_of p ws ++ l) (t.each p)
              ∙ sym (jobs_of-append p ws w.write_jobs)
              ∙ h.each p;
          number = ground (arith, k, h.number, t.fewer);
        },
      )

  work-Accounted :
      (place : Place) (now : ℤ) (k : ℕ) (w : MessageWriter) (s : S) (before : List WriteJob)
      (qs : List Queued) (n : ℕ)
      → Accounted before qs n (w, s)
      → Accounted before qs n (work hash unknown write flush place now k w s)
  unfolding work
  work-Accounted loop_test now k w s before qs n (ws, h) =
      (ws, record { written = h.written; each = h.each; number = h.number })
  work-Accounted (writing c) now k w s before qs n h =
      write_operation-Accounted writing flushing c (try_dequeue k w.write_jobs) now w s before qs n
        (try_dequeue-Takes k w.write_jobs) h
  work-Accounted flushing now k w s before qs n (ws, h) =
      let w1 : MessageWriter = record w { place = break_test } in
      let f = flush_operation-keeps hash unknown write flush now w1 s in
      (
        ws,
        record {
          written = flush-log now w1 s ∙ h.written;
          each = λ p. ap (λ l. jobs_of p (ws ++ l)) f.0 ∙ h.each p;
          number = ground (arith, f, h.number);
        },
      )
  work-Accounted break_test now k w s before qs n (ws, h) =
      (ws, record { written = h.written; each = h.each; number = h.number })
  work-Accounted (last_writing c) now k w s before qs n h =
      write_operation-Accounted last_writing ended c (try_dequeue k w.write_jobs) now w s before qs
        n (try_dequeue-Takes k w.write_jobs) h
  work-Accounted ended now k w s before qs n h = h

  act_all-Accounted :
      (xs : List Action) (w : MessageWriter) (s : S) (before : List WriteJob) (qs : List Queued)
      (n : ℕ)
      → Accounted before qs n (w, s)
      → Accounted before
          (qs ++ added xs)
          (n + length (added xs))
          (act_all hash unknown write flush xs w s)
  unfolding act_all act add_message stop
  act_all-Accounted [] w s before qs n (ws, h) = (
    ws,
    record {
      written = h.written;
      each = λ p. h.each p ∙ ap (jobs_of p) (sym (append-nil qs));
      number = omega (arith, h.number);
    },
  )
  act_all-Accounted (works (now, k) ∷ xs) w s before qs n h =
      act_all-Accounted xs (work hash unknown write flush w.place now k w s).0
        (work hash unknown write flush w.place now k w s).1 before qs n
        (work-Accounted w.place now k w s before qs n h)
  act_all-Accounted (adds caller j ∷ xs) w s before qs n (ws, h) =
      let q : Queued = (caller, j) in
      let k = act_all-Accounted xs (add_message caller j w) s before (qs ++ q ∷ []) (n + 1) (
        ws,
        record {
          written = h.written;
          each = λ p.
              ap (jobs_of p) (sym (append_assoc ws w.write_jobs (q ∷ [])))
              ∙ jobs_of-append p (ws ++ w.write_jobs) (q ∷ [])
              ∙ ap (λ l. l ++ jobs_of p (q ∷ [])) (h.each p)
              ∙ sym (jobs_of-append p qs (q ∷ []));
          number = omega (arith, h.number, length-append w.write_jobs (q ∷ []));
        },
      ) in
      (
        k.0,
        record {
          written = k.1.written;
          each = λ p. k.1.each p ∙ ap (jobs_of p) (append_assoc qs (q ∷ []) (added xs));
          number = omega (arith, k.1.number);
        },
      )
  act_all-Accounted (stops ∷ xs) w s before qs n (ws, h) =
      act_all-Accounted xs (stop w) s before qs n
        (ws, record { written = h.written; each = h.each; number = h.number })

  -- However the additions of several threads to the queue and the steps of the writer interleave, and
  -- whichever thread's jobs the queue gives first: there is a list of jobs that were written, in this
  -- order, after what was written before; for each thread its jobs in this list, and then those still
  -- queued, are its jobs that were queued before and then those it added, each once and in the order of
  -- their addition; and every job written is counted, as done or as an error. It is taken that each call
  -- of a module's `write` writes down the job it was given, and that flushing does not.
  pub written_in_order :
      (xs : List Action) (w : MessageWriter) (s : S)
      → let (w', s') = act_all hash unknown write flush xs w s in
        (ws : List Queued) × Accounts
          (log s)
          (w.write_jobs ++ added xs)
          (w.writes_done + w.write_errors + length w.write_jobs + length (added xs))
          w'
          s'
          ws
  written_in_order xs w s =
      act_all-Accounted xs w s (log s) w.write_jobs
        (w.writes_done + w.write_errors + length w.write_jobs)
        ([], record { written = sym (append-nil (log s)); each = λ p. refl; number = refl })

  -- Once the writer was told to stop, wherever its thread stands, and if no more jobs are added, the
  -- thread ends within four steps more than there are jobs on the queue; the queue is then empty, and
  -- the jobs that were on it were written after what was written before, for each thread that added them
  -- all of its jobs, each once and in their order. It is taken that each call of a module's `write`
  -- writes down the job it was given, and that flushing does not.
  pub stop_drains :
      (ts : List (ℤ × ℕ)) (w : MessageWriter) (s : S)
      → (w.place ≡ ended → w.write_jobs ≡ [])
      → length w.write_jobs + 4 ≤ length ts
      → let (w', s') = act_all hash unknown write flush (stops ∷ map works ts) w s in
        (w'.place ≡ ended)
        × (w'.write_jobs ≡ [])
        × ((ws : List Queued) × (log s' ≡ log s ++ jobs ws)
            × ((p : ℕ) → jobs_of p ws ≡ jobs_of p w.write_jobs))
  stop_drains ts w s h n =
      let (at_end, empty) = stop-ends hash unknown write flush ts w s h n in
      let (ws, k) = written_in_order (stops ∷ map works ts) w s in
      (
        at_end,
        empty,
        (
          ws,
          k.written,
          (λ p.
              ap (jobs_of p) (sym (append-nil ws))
              ∙ ap (λ l. jobs_of p (ws ++ l)) (sym empty)
              ∙ k.each p
              ∙ ap (λ l. jobs_of p (w.write_jobs ++ l)) (added-works ts)
              ∙ ap (jobs_of p) (append-nil w.write_jobs)),
        ),
      )
