-- ===== src/Command/Parser/Fields.antt =====
-- Which commands the parser accepts.
use kafka_to_nexus.Common.{
  ℤ, ◌≡◌, ◌≢◌, ◌↔◌, ◌⊎◌, refl, Bool, true, false, List, [], ◌∷◌, Option, none, some, Text, arith,
  ◌||◌, inl, inr,
}
use kafka_to_nexus.Command.Parser.{
  RunStart, RunStop, Field, job_id_missing, nexus_structure_missing, filename_missing, parsed,
  refused, null_read, is_missing, missing_fields, start_message, extract_start_message,
  extract_stop_message, text_or,
}

-- A field is present with at least one character.
abbrev pub IsPresent : Option Text → Type 0
IsPresent o = is_missing o ≡ false

abbrev same_field : Field → Field → Bool
same_field job_id_missing job_id_missing = true
same_field nexus_structure_missing nexus_structure_missing = true
same_field filename_missing filename_missing = true
same_field _ _ = false

-- Whether an error names a field.
abbrev pub names : Field → List Field → Bool
names f [] = false
names f (g ∷ gs) = same_field f g || names f gs

names_missing :
    (r : RunStart)
    → (names job_id_missing (missing_fields r) ≡ is_missing r.job_id)
      × (names nexus_structure_missing (missing_fields r) ≡ is_missing r.nexus_structure)
      × (names filename_missing (missing_fields r) ≡ is_missing r.filename)
unfolding missing_fields
names_missing r = ground arith

none_missing :
    (r : RunStart)
    → missing_fields r ≡ []
    → IsPresent r.job_id × IsPresent r.nexus_structure × IsPresent r.filename
unfolding missing_fields
none_missing r e = ground arith

-- The parser of start commands accepts exactly those with a job id, a NeXus structure and a file name,
-- none of them empty; it then keeps all three; otherwise the error names every field that is missing
-- and none that is present, and no read goes through a null pointer.
pub start_accepted_iff :
    (t : ℤ) (r : RunStart)
    → ((IsPresent r.job_id × IsPresent r.nexus_structure × IsPresent r.filename)
        × (extract_start_message t r ≡ parsed (start_message t r))
        × (some (start_message t r).job_id ≡ r.job_id)
        × (some (start_message t r).nexus_structure ≡ r.nexus_structure)
        × (some (start_message t r).filename ≡ r.filename))
      ⊎ ((fs : List Field) × (extract_start_message t r ≡ refused fs)
          × (fs ≢ [])
          × (names job_id_missing fs ≡ is_missing r.job_id)
          × (names nexus_structure_missing fs ≡ is_missing r.nexus_structure)
          × (names filename_missing fs ≡ is_missing r.filename))
unfolding extract_start_message start_message
start_accepted_iff t r = elim (some_missing (missing_fields r) refl) [
  | inl e ↦
      let h : IsPresent r.job_id × IsPresent r.nexus_structure × IsPresent r.filename =
        none_missing r e in
      inl (
        h,
        rw (e, extract_start_message),
        kept r.job_id h.0,
        kept r.nexus_structure h.1,
        kept r.filename h.2,
      )
  | inr h ↦
      inr
        (missing_fields r, h.1, h.0, (names_missing r).0, (names_missing r).1, (names_missing r).2)
]
  where
    some_missing :
        (fs : List Field)
        → missing_fields r ≡ fs
        → (missing_fields r ≡ [])
          ⊎ ((missing_fields r ≢ []) × (extract_start_message t r ≡ refused (missing_fields r)))
    some_missing [] e = inl e
    some_missing (f ∷ fs) e = inr ((λ z. cc), rw (e, extract_start_message))

    kept : (o : Option Text) → IsPresent o → some (text_or [] o) ≡ o
    kept none h = cc
    kept (some c) h = refl

-- A stop command with a job id and no command id makes the parser read through a null pointer: unlike
-- the job id, the command id is not tested.
stop_without_command_id :
    (r : RunStop)
    → IsPresent r.job_id
    → (extract_stop_message r ≡ null_read) ↔ (r.command_id ≡ none)
unfolding extract_stop_message
stop_without_command_id r h = ground arith
