-- ===== src/Stream/Partition/Filters.antt =====
-- `create_filters` of src/Stream/Partition.cpp: one source filter for each write hash.
use kafka_to_nexus.Common.{
  ℤ, ℕ, ◌+◌, ◌<◌, ◌≡◌, refl, Bool, List, [], ◌∷◌, ◌++◌, Text, if◌then◌else◌, ltb, ◌==◌, arith, map,
  Option, none, some, append-nil, sym, ◌∙◌, ap, append_assoc, length, length-map,
}
use kafka_to_nexus.Stream.SourceFilter.{
  SourceFilter, new, add_writer_module_for_message, set_source_hash,
}

pub record SrcDstKey : Type 0 where
  pub src_hash : ℕ
  pub write_hash : ℕ
  pub destination : ℕ
  pub source_name : Text
  pub flatbuffer_id : Text
  pub writer_module_id : Text
  pub accepts_repeated_timestamps : Bool

-- One entry of `hash_to_filter`, with that of `write_hash_to_source_hash` for the same key.
pub record Entry : Type 0 where
  pub key : ℕ
  pub filter : SourceFilter
  pub used_hash : ℕ

-- The body of the loop, for a filter that is there or was just made.
unfoldable pub add_to : SrcDstKey → SourceFilter → Entry
unfolding add_writer_module_for_message
add_to s f = record {
  key = s.write_hash;
  filter = add_writer_module_for_message s.destination f;
  used_hash = s.src_hash;
}

module _ (start_time stop_time : ℤ) where
  -- The maps are ordered by their keys.
  unfoldable pub insert : SrcDstKey → List Entry → List Entry
  unfolding add_to
  insert s [] = add_to s (new start_time stop_time s.accepts_repeated_timestamps) ∷ []
  insert s (e ∷ es) =
      if e.key == s.write_hash
      then add_to s e.filter ∷ es
      else (if ltb s.write_hash e.key
          then add_to s (new start_time stop_time s.accepts_repeated_timestamps) ∷ e ∷ es
          else e ∷ insert s es)

  unfoldable pub insert_all : List SrcDstKey → List Entry → List Entry
  insert_all [] es = es
  insert_all (s ∷ ss) es = insert_all ss (insert s es)

  unfoldable pub create_filters : List SrcDstKey → List SourceFilter
  create_filters ss = map (λ e. set_source_hash e.used_hash e.filter) (insert_all ss [])

-- The destinations of the filter for a key.
abbrev destinations : ℕ → List Entry → List ℕ
destinations h [] = []
destinations h (e ∷ es) =
    if e.key == h then e.filter.destination_writer_modules else destinations h es

abbrev pub destinations_for : ℕ → List SrcDstKey → List ℕ
destinations_for h [] = []
destinations_for h (s ∷ ss) =
    if s.write_hash == h then s.destination ∷ destinations_for h ss else destinations_for h ss

-- Keys that rise from above `n`, so that no two filters share one.
abbrev IsRising : ℕ → List Entry → Type 0
IsRising n [] = Unit {0}
IsRising n (e ∷ es) = (n < e.key + 1) × IsRising (e.key + 1) es

insert-IsRising :
    (start_time stop_time : ℤ) (n : ℕ) (s : SrcDstKey) (es : List Entry)
    → n < s.write_hash + 1
    → IsRising n es
    → IsRising n (insert start_time stop_time s es)
unfolding insert
insert-IsRising start_time stop_time n s [] k h = ground arith
insert-IsRising start_time stop_time n s (e ∷ es) k h =
    ground (arith, insert-IsRising start_time stop_time (e.key + 1) s es)

destinations-below : (n h : ℕ) (es : List Entry) → IsRising n es → h < n → destinations h es ≡ []
destinations-below n h [] r k = refl
destinations-below n h (e ∷ es) r k = ground (arith, destinations-below (e.key + 1) h es)

destinations-insert :
    (start_time stop_time : ℤ) (n h : ℕ) (s : SrcDstKey) (es : List Entry)
    → IsRising n es
    → destinations h (insert start_time stop_time s es)
      ≡ destinations h es ++ (if s.write_hash == h then s.destination ∷ [] else [])
unfolding insert new
destinations-insert start_time stop_time n h s [] r = ground arith
destinations-insert start_time stop_time n h s (e ∷ es) r = ground (
  arith,
  append-nil (destinations h es),
  append-nil e.filter.destination_writer_modules,
  destinations-below (e.key + 1) h es,
  destinations-insert start_time stop_time (e.key + 1) h s es,
)

abbrev used_hash_of : ℕ → List Entry → Option ℕ
used_hash_of h [] = none
used_hash_of h (e ∷ es) = if e.key == h then some e.used_hash else used_hash_of h es

-- The source hash that comes last with a write hash.
abbrev pub last_source : ℕ → Option ℕ → List SrcDstKey → Option ℕ
last_source h o [] = o
last_source h o (s ∷ ss) = last_source h (if s.write_hash == h then some s.src_hash else o) ss

used_hash-below : (n h : ℕ) (es : List Entry) → IsRising n es → h < n → used_hash_of h es ≡ none
used_hash-below n h [] r k = refl
used_hash-below n h (e ∷ es) r k = ground (arith, used_hash-below (e.key + 1) h es)

used_hash-insert :
    (start_time stop_time : ℤ) (n h : ℕ) (s : SrcDstKey) (es : List Entry)
    → IsRising n es
    → used_hash_of h (insert start_time stop_time s es)
      ≡ (if s.write_hash == h then some s.src_hash else used_hash_of h es)
unfolding insert
used_hash-insert start_time stop_time n h s [] r = ground arith
used_hash-insert start_time stop_time n h s (e ∷ es) r = ground (
  arith,
  used_hash-below (e.key + 1) h es,
  used_hash-insert start_time stop_time (e.key + 1) h s es,
)

insert_all-lem :
    (start_time stop_time : ℤ) (h : ℕ) (ss : List SrcDstKey) (es : List Entry)
    → IsRising 0 es
    → let es' = insert_all start_time stop_time ss es in
      IsRising 0 es'
      × (destinations h es' ≡ destinations h es ++ destinations_for h ss)
      × (used_hash_of h es' ≡ last_source h (used_hash_of h es) ss)
unfolding insert_all
insert_all-lem start_time stop_time h [] es r = (r, sym (append-nil (destinations h es)), refl)
insert_all-lem start_time stop_time h (s ∷ ss) es r =
    let es' : List Entry = insert start_time stop_time s es in
    let k =
      insert_all-lem start_time stop_time h ss es'
        (insert-IsRising start_time stop_time 0 s es (omega arith) r) in
    let d = destinations-insert start_time stop_time 0 h s es r in
    let u = used_hash-insert start_time stop_time 0 h s es r in
    (
      k.0,
      k.1 ∙ ap (λ l. l ++ destinations_for h ss) d ∙ append_if (destinations h es) s h ss,
      k.2 ∙ ap (λ o. last_source h o ss) u,
    )
  where
    append_if :
        (ds : List ℕ) (s : SrcDstKey) (h : ℕ) (ss : List SrcDstKey)
        → (ds ++ (if s.write_hash == h then s.destination ∷ [] else [])) ++ destinations_for h ss
          ≡ ds ++ destinations_for h (s ∷ ss)
    append_if ds s h ss =
        ground (arith, append_assoc ds (s.destination ∷ []) (destinations_for h ss), append-nil ds)

-- The write hashes of the sources, each once and rising.
abbrev put : ℕ → List ℕ → List ℕ
put h [] = h ∷ []
put h (k ∷ ks) = if k == h then k ∷ ks else (if ltb h k then h ∷ k ∷ ks else k ∷ put h ks)

abbrev put_all : List SrcDstKey → List ℕ → List ℕ
put_all [] ks = ks
put_all (s ∷ ss) ks = put_all ss (put s.write_hash ks)

abbrev pub write_hashes : List SrcDstKey → List ℕ
write_hashes ss = put_all ss []

-- The filter that stands where a hash stands.
abbrev pub filter_at : ℕ → List ℕ → List SourceFilter → Option SourceFilter
filter_at h (k ∷ ks) (f ∷ fs) = if k == h then some f else filter_at h ks fs
filter_at h _ _ = none

abbrev pub source_of : Option SourceFilter → Option ℕ
source_of none = none
source_of (some f) = some f.source_hash

abbrev pub destinations_of : Option SourceFilter → List ℕ
destinations_of none = []
destinations_of (some f) = f.destination_writer_modules

abbrev keys : List Entry → List ℕ
keys = map (λ e. e.key)

abbrev filters : List Entry → List SourceFilter
filters = map (λ e. set_source_hash e.used_hash e.filter)

source_of-filters :
    (h : ℕ) (es : List Entry) → source_of (filter_at h (keys es) (filters es)) ≡ used_hash_of h es
unfolding set_source_hash
source_of-filters h [] = refl
source_of-filters h (e ∷ es) = ground (arith, source_of-filters h es)

destinations_of-filters :
    (h : ℕ) (es : List Entry)
    → destinations_of (filter_at h (keys es) (filters es)) ≡ destinations h es
unfolding set_source_hash
destinations_of-filters h [] = refl
destinations_of-filters h (e ∷ es) = ground (arith, destinations_of-filters h es)

keys-insert :
    (start_time stop_time : ℤ) (s : SrcDstKey) (es : List Entry)
    → keys (insert start_time stop_time s es) ≡ put s.write_hash (keys es)
unfolding insert
keys-insert start_time stop_time s [] = refl
keys-insert start_time stop_time s (e ∷ es) = ground (arith, keys-insert start_time stop_time s es)

keys-insert_all :
    (start_time stop_time : ℤ) (ss : List SrcDstKey) (es : List Entry)
    → keys (insert_all start_time stop_time ss es) ≡ put_all ss (keys es)
unfolding insert_all
keys-insert_all start_time stop_time [] es = refl
keys-insert_all start_time stop_time (s ∷ ss) es =
    keys-insert_all start_time stop_time ss (insert start_time stop_time s es)
    ∙ ap (put_all ss) (keys-insert start_time stop_time s es)

-- The sources of a topic, in whatever order: as many filters are made as there are different write
-- hashes, and stand in the order of the hashes; the filter for a write hash has the destinations of
-- all sources with it, in their order and as often as they come; and it takes the source hash of the
-- last of them. There is none for a hash that no source has.
pub filters_by_write_hash :
    (start_time stop_time : ℤ) (h : ℕ) (ss : List SrcDstKey)
    → let fs = create_filters start_time stop_time ss in
      let f = filter_at h (write_hashes ss) fs in
      (length fs ≡ length (write_hashes ss))
      × (destinations_of f ≡ destinations_for h ss)
      × (source_of f ≡ last_source h none ss)
unfolding create_filters
filters_by_write_hash start_time stop_time h ss =
    let es : List Entry = insert_all start_time stop_time ss [] in
    let k = insert_all-lem start_time stop_time h ss [] tt in
    let same : write_hashes ss ≡ keys es = sym (keys-insert_all start_time stop_time ss []) in
    (
      length-map (λ e. set_source_hash e.used_hash e.filter) es
          ∙ sym (length-map (λ e. e.key) es)
          ∙ ap length (sym same),
      ap (λ ks. destinations_of (filter_at h ks (filters es))) same
          ∙ destinations_of-filters h es
          ∙ k.1,
      ap (λ ks. source_of (filter_at h ks (filters es))) same ∙ source_of-filters h es ∙ k.2,
    )
