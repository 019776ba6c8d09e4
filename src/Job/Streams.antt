-- ===== src/Job/Streams.antt =====
-- The loop that makes the writer modules of a job, with their extra modules: src/JobCreator.cpp.
use kafka_to_nexus.Common.{
  false, none, inr, map, bytes, inl, some, Text, Option, Option-cases, ℕ, ◌+◌, ◌≤◌, ◌≡◌, refl, sym,
  ap, ◌∙◌, List, [], ◌∷◌, ◌++◌, length, length-append, All, All-append, arith, zero, suc,
  append-nil, append_assoc,
}
use kafka_to_nexus.Job.{
  put_first, failed, generate_writer_instance, initialised, ModuleSettings, Modules, Looped,
  streams, init_stream, init_streams,
}

module _ {W : Type 0} (modules : Modules W) where
  -- The settings of an extra module of a stream: its place, name, topic and source, and no
  -- configuration.
  abbrev pub extra_of : ModuleSettings W → Text → ModuleSettings W
  extra_of s extra = record {
    module_hdf_info = s.module_hdf_info;
    name = s.name;
    topic = s.topic;
    module_ = extra;
    source = s.source;
    config_stream_json = bytes "{}";
    writer_module = none;
    is_link = false;
  }

  -- The extra modules that the module of a stream has enabled once it is configured.
  abbrev pub enabled_by : ModuleSettings W → Option W → List (ModuleSettings W)
  enabled_by s none = []
  enabled_by s (some w) =
      map (extra_of s)
        (modules.enabled_extra_modules (modules.parse_config s.config_stream_json w).0)

  abbrev pub pushed : ModuleSettings W → List (ModuleSettings W)
  pushed s = enabled_by s (modules.make s.module_)

  abbrev pub pushed_by_all : List (ModuleSettings W) → List (ModuleSettings W)
  pushed_by_all [] = []
  pushed_by_all (s ∷ ss) = pushed s ++ pushed_by_all ss

  abbrev pub IsLeaf : ModuleSettings W → Type 0
  IsLeaf e = pushed e ≡ []

  -- The modules that are named as extra modules have none of their own.
  abbrev pub IsFlat : Type 0
  IsFlat = (s : ModuleSettings W) → All IsLeaf (pushed s)

  -- The stream with the module that was configured, initialised and registered.
  abbrev pub with_module : ModuleSettings W → Option W → Option (ModuleSettings W)
  with_module s none = none
  with_module s (some w) = some (record s { writer_module = some w })

  abbrev pub after_init : ModuleSettings W → Option W → Option (ModuleSettings W)
  after_init s none = none
  after_init s (some w) =
      with_module s (modules.register_meta_data s.module_hdf_info.hdf_parent_name w)

  abbrev pub made_with : ModuleSettings W → Option W → Option (ModuleSettings W)
  made_with s none = none
  made_with s (some w) = after_init s (
      modules.init_hdf s.module_hdf_info.hdf_parent_name
        (modules.parse_config s.config_stream_json w).0)

  abbrev pub made : ModuleSettings W → Option (ModuleSettings W)
  made s = made_with s (modules.make s.module_)

  abbrev pub before : Option (ModuleSettings W) → Looped W → Looped W
  before none rest = failed
  before (some s) rest = put_first s rest

  -- Every stream of a list with its module, up to the first failure.
  abbrev pub make_each : List (ModuleSettings W) → Looped W
  make_each [] = streams []
  make_each (s ∷ ss) = before (made s) (make_each ss)

  abbrev with_extras :
      Option (ModuleSettings W)
      → List (ModuleSettings W)
      → Option (ModuleSettings W × List (ModuleSettings W))
  with_extras none extras = none
  with_extras (some s) extras = some (s, extras)

  init_stream-made :
      (s : ModuleSettings W) → init_stream modules s ≡ with_extras (made s) (pushed s)
  unfolding init_stream generate_writer_instance
  init_stream-made s = elim (Option-cases (modules.make s.module_)) [
    | inl e ↦ rw (e, init_stream, generate_writer_instance) refl
    | inr (w, e) ↦
        rw (e, init_stream, generate_writer_instance)
          (initialised_too (modules.parse_config s.config_stream_json w).0)
  ]
    where
      initialised_too :
          (w : W)
          → initialised modules s
              (modules.enabled_extra_modules w)
              (modules.init_hdf s.module_hdf_info.hdf_parent_name w)
            ≡ with_extras
                (after_init s (modules.init_hdf s.module_hdf_info.hdf_parent_name w))
                (map (extra_of s) (modules.enabled_extra_modules w))
      initialised_too w =
          elim (Option-cases (modules.init_hdf s.module_hdf_info.hdf_parent_name w)) [
            | inl e ↦ rw e refl
            | inr (w', e) ↦
                rw e
                  (elim (Option-cases
                    (modules.register_meta_data s.module_hdf_info.hdf_parent_name w')) [
                      | inl f ↦ rw f refl
                      | inr (w'', f) ↦ rw f refl
                    ])
          ]

  -- One turn of the loop.
  turn :
      (fuel : ℕ) (s : ModuleSettings W) (ss rest : List (ModuleSettings W))
      → init_streams modules fuel (ss ++ pushed s) ≡ make_each rest
      → init_streams modules (suc fuel) (s ∷ ss) ≡ make_each (s ∷ rest)
  unfolding init_streams
  turn fuel s ss rest e = rw (init_stream-made s) (elim (Option-cases (made s)) [
    | inl n ↦ rw n refl
    | inr (s', n) ↦ rw n (ap (put_first s') e)
  ])

  leaves :
      (fuel : ℕ) (es : List (ModuleSettings W))
      → length es ≤ fuel
      → All IsLeaf es
      → init_streams modules fuel es ≡ make_each es
  unfolding init_streams
  leaves fuel [] h a = refl
  leaves zero (e ∷ es) h a = absurd (omega arith)
  leaves (suc fuel) (e ∷ es) h a = turn fuel e es es (
      ap (init_streams modules fuel) (ap (λ x. es ++ x) a.0 ∙ append-nil es)
      ∙ leaves fuel es (omega arith) a.1)

  ends :
      (fuel : ℕ) (ss es : List (ModuleSettings W))
      → IsFlat
      → length ss + length es + length (pushed_by_all ss) ≤ fuel
      → All IsLeaf es
      → init_streams modules fuel (ss ++ es) ≡ make_each (ss ++ es ++ pushed_by_all ss)
  unfolding init_streams
  ends fuel [] es f h a = leaves fuel es (omega arith) a ∙ ap make_each (sym (append-nil es))
  ends zero (s ∷ ss) es f h a = absurd (omega arith)
  ends (suc fuel) (s ∷ ss) es f h a =
      let ih =
        ends fuel ss (es ++ pushed s) f
          (omega (arith, length-append es (pushed s), length-append (pushed s) (pushed_by_all ss)))
          (All-append IsLeaf es (pushed s) a (f s)) in
      turn fuel s (ss ++ es) (ss ++ es ++ (pushed s ++ pushed_by_all ss)) (
        ap (init_streams modules fuel) (append_assoc ss es (pushed s))
        ∙ ih
        ∙ ap make_each (regroup s ss es))
    where
      regroup :
          (s : ModuleSettings W) (ss es : List (ModuleSettings W))
          → ss ++ (es ++ pushed s) ++ pushed_by_all ss ≡ ss ++ es ++ (pushed s ++ pushed_by_all ss)
      regroup s ss es =
          ap (λ x. x ++ pushed_by_all ss) (sym (append_assoc ss es (pushed s)))
          ∙ append_assoc (ss ++ es) (pushed s) (pushed_by_all ss)

  -- The loop over the growing list of streams ends: it makes the modules of the streams in order, and
  -- then those of the extra modules that their configured modules have enabled, each with the place,
  -- name, topic and source of its stream, or stops at the first failure. This holds if extra modules
  -- have no extra modules of their own; the fuel is the number of all these modules.
  pub init_streams-each :
      (fuel : ℕ) (ss : List (ModuleSettings W))
      → IsFlat
      → length ss + length (pushed_by_all ss) ≤ fuel
      → init_streams modules fuel ss ≡ make_each (ss ++ pushed_by_all ss)
  init_streams-each fuel ss f h =
      ap (init_streams modules fuel) (sym (append-nil ss))
      ∙ ends fuel ss [] f (omega arith) tt
      ∙ ap (λ x. make_each (x ++ pushed_by_all ss)) (append-nil ss)
