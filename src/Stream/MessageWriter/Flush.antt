-- ===== src/Stream/MessageWriter/Flush.antt =====
-- The time of the next flush, and the counters of errors.
use kafka_to_nexus.Common.{
  ℤ, pos, pos_part, ℕ, ◌+◌, ◌*◌, ◌/◌, ◌^◌, ◌≤◌, ◌<◌, ◌≡◌, refl, true, false, leb_ℤ, ◌≤ℤ◌, ◌<ℤ◌,
  ◌+ℤ◌, arith, wrap64, wrap64-exact, Text,
}
use native.Mathlib.Nat.{div-add-mod, mod-lt}
use kafka_to_nexus.Time.{
  time_max, time_laws, IsLength, add_time, add_time-length, sub_time, sub_time-length,
}
use kafka_to_nexus.Stream.SourceFilter.{WriteJob}
use kafka_to_nexus.Stream.MessageWriter.{
  MessageWriter, Written, flush_periods, scale, passed, flush_operation,
}

-- Whole periods of an interval: the first multiple past a number.
periods_past : (d k : ℕ) → 0 < k → (d < (d / k + 1) * k) × ((d / k + 1) * k ≤ d + k)
periods_past d k h =
    let e = div-add-mod d k in
    let m = mod-lt d h in
    let r : (d / k + 1) * k ≡ k * (d / k) + k = grind arith in (omega arith, omega arith)

flush_periods-small : (n : ℕ) → n + 1 < 2 ^ 31 → flush_periods n ≡ pos (n + 1)
flush_periods-small n h = ground arith

-- What lies between the clock and the time of a flush that is due.
due_since :
    (now next : ℤ) (k : ℕ)
    → IsLength next
    → now +ℤ pos k ≤ℤ time_max
    → next ≤ℤ now
    → pos_part (sub_time now next) + pos_part next ≡ pos_part now
due_since now next k n b h =
    let e = sub_time-length now next (omega (time_laws, n, b, h), omega (time_laws, n, b, h)) n in
    rw e (omega (time_laws, n, b, h))

next_time :
    (now next : ℤ) (k : ℕ)
    → 0 < k
    → IsLength next
    → now +ℤ pos k ≤ℤ time_max
    → next ≤ℤ now
    → pos_part (sub_time now next) / k + 1 < 2 ^ 31
    → let d = pos_part (sub_time now next) in
      add_time next (wrap64 (scale (flush_periods (d / k)) k)) ≡ next +ℤ pos ((d / k + 1) * k)
next_time now next k z n b h f =
    let d : ℕ = pos_part (sub_time now next) in
    let e = due_since now next k n b h in
    let p = periods_past d k z in
    let w : wrap64 (pos ((d / k + 1) * k)) ≡ pos ((d / k + 1) * k) =
      wrap64-exact (pos ((d / k + 1) * k)) (omega (time_laws, n, b, h, e, p.1)) in
    rw (flush_periods-small (d / k) f, w)
      (add_time-length next (pos ((d / k + 1) * k)) n (omega (time_laws, n, b, h, e, p.1))
        (omega (time_laws, n, b, h, e, p.1)))

module _ {S : Type 0} (hash : Text → ℕ) (unknown : ℕ) (write : WriteJob → S → S × Written)
    (flush : S → S) where
  flush_due :
      (now : ℤ) (w : MessageWriter) (s : S)
      → w.next_flush_time ≤ℤ now
      → let (w', s') = flush_operation hash unknown write flush now w s in
        (s' ≡ flush s)
        × (w'.next_flush_time
            ≡ add_time w.next_flush_time
                (wrap64 (scale (flush_periods (passed now w / w.flush_interval)) w.flush_interval)))
  unfolding flush_operation
  flush_due now w s h =
      let e : leb_ℤ w.next_flush_time now ≡ true = ground (arith, h) in
      rw (e, flush_operation) (refl, refl)

  flush_not_due :
      (now : ℤ) (w : MessageWriter) (s : S)
      → now <ℤ w.next_flush_time
      → let (w', s') = flush_operation hash unknown write flush now w s in (w' ≡ w) × (s' ≡ s)
  unfolding flush_operation
  flush_not_due now w s h =
      let e : leb_ℤ w.next_flush_time now ≡ false = ground (arith, h) in
      rw (e, flush_operation) (refl, refl)

  -- A flush that is due happens, and sets the next one to after the present and to no more than one
  -- interval after it; one that is not due changes nothing. The interval is at least a nanosecond, and
  -- fewer than 2^31 of them have passed since the flush was due, by clocks that are in range.
  pub flush_keeps_ahead :
      (now : ℤ) (w : MessageWriter) (s : S)
      → 0 < w.flush_interval
      → IsLength w.next_flush_time
      → now +ℤ pos w.flush_interval ≤ℤ time_max
      → passed now w / w.flush_interval + 1 < 2 ^ 31
      → let (w', s') = flush_operation hash unknown write flush now w s in
        (w.next_flush_time ≤ℤ now
          → (s' ≡ flush s)
            × (now <ℤ w'.next_flush_time)
            × (w'.next_flush_time ≤ℤ now +ℤ pos w.flush_interval))
        × (now <ℤ w.next_flush_time → (w' ≡ w) × (s' ≡ s))
  flush_keeps_ahead now w s k n b f = (
    (λ h.
        let e = next_time now w.next_flush_time w.flush_interval k n b h f in
        let d = due_since now w.next_flush_time w.flush_interval n b h in
        let p = periods_past (passed now w) w.flush_interval k in
        let r = flush_due now w s h in
        (
          r.0,
          rw (r.1, e) (omega (time_laws, n, d, p.0, p.1)),
          rw (r.1, e) (omega (time_laws, n, b, d, p.0, p.1)),
        )),
    λ h. flush_not_due now w s h,
  )
