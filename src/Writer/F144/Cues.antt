-- ===== src/Writer/F144/Cues.antt =====
-- The values and cue entries of messages in order: src/WriterModule/f144/f144_Writer.cpp.
use kafka_to_nexus.Common.{
  ℕ, ◌+◌, ◌/◌, ◌%◌, ◌<◌, ◌≤◌, ◌≡◌, ◌^◌, refl, sym, ap, ◌∙◌, Bool, not, List, [], ◌∷◌, ◌++◌, u64,
  ◌==◌, if◌then◌else◌, length, keep, arith,
}
use native.Mathlib.Nat.{mod-add-mod, mod-eq_of_lt, mod_self, div-eq_of_lt, div_self, mod-lt}
use native.Mathlib.Decide.{dec_lt}
use kafka_to_nexus.Dataset.{◌then◌}
use kafka_to_nexus.Writer.{sub64}
use kafka_to_nexus.Writer.F144.{LogData, is_scalar}

module _ {V : Type 0} where
  abbrev pub scalars : List (LogData V) → List (LogData V)
  scalars = keep (λ m. is_scalar m.value_type)

  -- The cue entries: index and time stamp of every value that completes an interval.
  abbrev pub cues : ℕ → ℕ → List (LogData V) → List (ℕ × ℕ)
  cues interval i [] = []
  cues interval i (m ∷ ms) =
      let rest = cues interval (i + 1) ms in
      if (i + 1) % interval == 0 then (i, m.timestamp) ∷ rest else rest

  abbrev pub cue_of : ℕ → ℕ → LogData V → List (ℕ × ℕ)
  cue_of interval i m = if (i + 1) % interval == 0 then (i, m.timestamp) ∷ [] else []

  pub cues-append :
      (interval i : ℕ) (ms : List (LogData V)) (m : LogData V)
      → cues interval i (ms ++ m ∷ []) ≡ cues interval i ms ++ cue_of interval (i + length ms) m
  cues-append interval i [] m = ground arith
  cues-append interval i (n ∷ ms) m =
      let same : i + 1 + length ms ≡ i + (1 + length ms) = omega arith in
      ground (arith, cues-append interval (i + 1) ms m, same)

  pub length-cues :
      (interval i : ℕ) (ms : List (LogData V)) → length (cues interval i ms) ≤ length ms
  length-cues interval i [] = omega arith
  length-cues interval i (m ∷ ms) = ground (arith, length-cues interval (i + 1) ms)

  pub keep-append :
      (p : LogData V → Bool) (xs : List (LogData V)) (m : LogData V)
      → keep p (xs ++ m ∷ []) ≡ keep p xs ++ (if p m then m ∷ [] else [])
  keep-append p [] m = refl
  keep-append p (x ∷ xs) m = ground (arith, keep-append p xs m)

  pub length-keep : (p : LogData V → Bool) (xs : List (LogData V)) → length (keep p xs) ≤ length xs
  length-keep p [] = omega arith
  length-keep p (x ∷ xs) = ground (arith, length-keep p xs)

pub mod-suc : (n i : ℕ) → 0 < i → (n + 1) % i ≡ (if n % i + 1 == i then 0 else n % i + 1)
mod-suc n i h = sym (mod-add-mod n i 1) ∙ elim (dec_lt (n % i + 1) i) [
  | yes p ↦ mod-eq_of_lt p ∙ ground (arith, p)
  | no p ↦
      let e : n % i + 1 ≡ i = omega (arith, mod-lt n h) in
      ap (λ k. k % i) e ∙ mod_self i ∙ ground (arith, e)
]

-- The interval has passed since the last entry exactly if it divides the number of values.
pub passed :
    (n last i : ℕ)
    → 0 < i
    → n + 1 < 2 ^ 64
    → last + n % i ≡ n
    → (sub64 (u64 (n + 1)) last / i == 0) ≡ not ((n + 1) % i == 0)
passed n last i h b e =
    let since : sub64 (u64 (n + 1)) last ≡ n % i + 1 = omega (arith, b, e) in
    rw (since, mod-suc n i h)
      (elim (dec_lt (n % i + 1) i) [
        | yes p ↦ rw (div-eq_of_lt p) (ground (arith, p))
        | no p ↦
            let k : n % i + 1 ≡ i = omega (arith, mod-lt n h) in rw (k, div_self h) (ground arith)
      ])
