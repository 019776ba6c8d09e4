-- ===== src/MultiVector.antt =====
-- Arrays of any number of dimensions in one vector, last dimension fastest: src/MultiVector.h.
pub mod Index
pub mod Values
mod Examples
use kafka_to_nexus.Common.{
  ℕ, ◌+◌, ◌*◌, ◌-◌, ◌%◌, ◌^◌, Bool, true, false, List, [], ◌∷◌, Option, none, some, if◌then◌else◌,
  ltb, ◌==◌, length, take, suc, zero,
}
pub use kafka_to_nexus.Common.{u64, get_elem?, replicate}
use mathlib.Core.List.{reverse}

-- A `size_t` that goes through an `int`, which keeps the low 32 bits and extends the sign.
unfoldable pub as_int : ℕ → ℕ
as_int n = let low = n % 2 ^ 32 in if ltb low (2 ^ 31) then low else low + (2 ^ 64 - 2 ^ 32)

-- `std::accumulate` with a product, from a start value of type `size_t`.
unfoldable pub product : ℕ → List ℕ → ℕ
product acc [] = acc
product acc (n ∷ ns) = product (u64 (acc * n)) ns

-- The same from the start value `1`, which makes the accumulator an `int`.
unfoldable pub int_product : ℕ → List ℕ → ℕ
unfolding as_int
int_product acc [] = acc
int_product acc (n ∷ ns) = int_product (as_int (u64 (acc * n))) ns

-- `extentToSize`; nothing stands for the `std::out_of_range` of `S.at(0)` on the empty shape.
unfoldable pub extent_to_size : List ℕ → Option ℕ
extent_to_size [] = none
extent_to_size (n ∷ ns) = some (product n ns)

-- The loop of `posToIndex` over the reversed position, from digit `i` on.
unfoldable pub index_loop : List ℕ → ℕ → List ℕ → ℕ → ℕ
index_loop dimensions i [] index = index
index_loop dimensions i (p ∷ ps) index =
    index_loop dimensions (suc i) ps (u64 (index + int_product 1 (take i dimensions) * p))

unfoldable pub pos_to_index : List ℕ → List ℕ → ℕ
pos_to_index dimensions position = index_loop (reverse dimensions) 0 (reverse position) 0

module _ {ℓ} {A : Type ℓ} where
  abbrev pub set : List A → ℕ → A → List A
  set [] i v = []
  set (x ∷ xs) zero v = v ∷ xs
  set (x ∷ xs) (suc i) v = x ∷ set xs i v

pub record MultiVector {ℓ} (A : Type ℓ) : Type ℓ where
  pub elements : List A
  pub shape : List ℕ

pub data IndexError : Type 0 where
  dimensions_not_equal outside_of_range : IndexError

-- The loop of `check_index`.
unfoldable pub check_range : List ℕ → List ℕ → Option IndexError
check_range (i ∷ index) (n ∷ shape) =
    let rest = check_range index shape in if ltb i n then rest else some outside_of_range
check_range _ _ = none

unfoldable pub check_index : List ℕ → List ℕ → Option IndexError
unfolding check_range
check_index index shape =
    if length index == length shape then check_range index shape else some dimensions_not_equal

pub data Access {ℓ} (R : Type ℓ) : Type ℓ where
  done : R → Access R
  failed : IndexError → Access R
  overrun : Access R

abbrev pub of_option {ℓ} : {R : Type ℓ} → Option R → Access R
of_option none = overrun
of_option (some r) = done r

module _ {ℓ} {A : Type ℓ} where
  -- The constructor from an extent, with the element type's default value.
  unfoldable pub new : A → List ℕ → Option (MultiVector A)
  new default_value extent = elim (extent_to_size extent) [
    | none ↦ none
    | some n ↦ some (record { elements = replicate n default_value; shape = extent })
  ]

  -- `overrun` stands for an access beyond the end of the vector, which C++ does not define.
  unfoldable pub get_value : List ℕ → MultiVector A → Access A
  get_value index v = elim (check_index index v.shape) [
    | some e ↦ failed e
    | none ↦ of_option (get_elem? v.elements (pos_to_index v.shape index))
  ]

  unfoldable pub set_value : List ℕ → A → MultiVector A → Access (MultiVector A)
  set_value index a v = elim (check_index index v.shape) [
    | some e ↦ failed e
    | none ↦
        if ltb (pos_to_index v.shape index) (length v.elements)
        then done (record v { elements = set v.elements (pos_to_index v.shape index) a })
        else overrun
  ]
