-- ===== src/Stream/PartitionFilter/Times.antt =====
-- The stop time and its leeway: no overflow, and when a time-out ends the partition.
use kafka_to_nexus.Common.{ℤ, ◌≡◌, arith, ◌≤ℤ◌, ◌<ℤ◌, ◌+ℤ◌, ◌-ℤ◌, ◌⊎◌, inl, inr, refl}
use kafka_to_nexus.Time.{time_max, IsLength, sub_time-length, sub_time-max, time_laws}
use kafka_to_nexus.Stream.PartitionFilter.{sanitise}

-- The two branches of the guard, in exact arithmetic.
pub sanitise_cases :
    (leeway stop_time : ℤ)
    → IsLength leeway
    → IsLength stop_time
    → ((sanitise leeway stop_time ≡ stop_time -ℤ leeway) × (time_max -ℤ stop_time ≤ℤ leeway))
      ⊎ ((sanitise leeway stop_time ≡ stop_time) × (leeway <ℤ time_max -ℤ stop_time))
unfolding sanitise
sanitise_cases leeway stop_time l s =
    ground (arith, sub_time-max stop_time s, sub_time-length stop_time leeway s l)

-- For a leeway and a stop time that the clock can hold: adding the leeway to the sanitised stop time
-- does not overflow, the stop time moves back by no more than the leeway, never forward, and only if
-- the sum would have reached the end of the clock.
pub sanitise_no_overflow :
    (leeway stop_time : ℤ)
    → IsLength leeway
    → IsLength stop_time
    → (sanitise leeway stop_time +ℤ leeway ≤ℤ time_max)
      × (sanitise leeway stop_time ≤ℤ stop_time)
      × (stop_time -ℤ leeway ≤ℤ sanitise leeway stop_time)
      × (stop_time +ℤ leeway <ℤ time_max → sanitise leeway stop_time ≡ stop_time)
sanitise_no_overflow leeway stop_time l s = elim (sanitise_cases leeway stop_time l s) [
  | inl (e, h) ↦ rw e (
    omega time_laws,
    omega time_laws,
    omega time_laws,
    λ (b : stop_time +ℤ leeway <ℤ time_max). absurd (omega time_laws),
  )
  | inr (e, h) ↦ rw e (omega time_laws, omega time_laws, omega time_laws, λ b. refl)
]
