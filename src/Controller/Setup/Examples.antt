-- ===== src/Controller/Setup/Examples.antt =====
-- The theorem on the start of the topics at three sources of two topics.
use kafka_to_nexus.Common.{
  pos, ℕ, ◌≡◌, refl, true, false, List, [], ◌∷◌, ◌++◌, Text, bytes, All, Any,
}
use kafka_to_nexus.Controller.Setup.{
  Source, Setup, TopicMap, new_source, init_streams, get_names, check_streams,
}
use kafka_to_nexus.Controller.Setup.Grouping.{sources_for, keys_for, IsRising}
use kafka_to_nexus.Controller.Setup.Topics.{IsKnown, IsUnknown, init_streams-sources_for}

abbrev hash_of : Text → ℕ
hash_of [] = 0
hash_of (b ∷ bs) = b

abbrev sources : List Source
sources =
    new_source hash_of (bytes "motor1") (bytes "f144") (bytes "f144") (bytes "motors") 0 false
    ∷ new_source hash_of (bytes "detector") (bytes "ev44") (bytes "ev44") (bytes "events") 1 false
    ∷ new_source hash_of (bytes "motor2") (bytes "f144") (bytes "f144") (bytes "motors") 2 false
    ∷ []

abbrev known : List Text
known = bytes "events" ∷ bytes "motors" ∷ bytes "other" ∷ []

abbrev setup : Setup
setup = record {
  current_metadata_time_out = pos 10;
  has_error = false;
  error_message = [];
  started = [];
  tasks = get_names ∷ [];
}

sources_are_known : All (IsKnown known) sources
unfolding new_source
sources_are_known = (refl, (refl, (refl, tt)))

init_streams-sources_for_example :
    let c = init_streams sources known setup in
    (All (IsKnown known) sources
      → (m : TopicMap) × (c.started ≡ [] ++ m)
        × IsRising m
        × ((t : Text) → sources_for t m ≡ keys_for t sources)
        × (c.has_error ≡ false)
        × (c.tasks ≡ get_names ∷ [] ++ check_streams ∷ []))
    × (Any (IsUnknown known) sources
        → (c.has_error ≡ true) × (c.started ≡ []) × (c.tasks ≡ get_names ∷ []))
init_streams-sources_for_example = init_streams-sources_for sources known setup
