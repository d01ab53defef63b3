-- ===== src/Dict.antt =====
-- Go's `map[string]V` as an association list. Go leaves the order of a `range` over a map open: here
-- it is the order of insertion, and no theorem of the library states an order.
pub mod Laws
pub mod Entries
use gsnet.Common.{
  Option, none, some, List, [], ◌∷◌, ◌||◌, Bool, false, Text, text_eq, is_some, if◌then◌else◌,
}

abbrev pub Dict {ℓ} : Type ℓ → Type ℓ
Dict V = List (Text × V)

-- Whether a list of strings holds `k`.
unfoldable pub contains : Text → List Text → Bool
contains k [] = false
contains k (j ∷ js) = text_eq j k || contains k js

module _ {ℓ} {V : Type ℓ} where
  -- `v, ok := d[k]`
  unfoldable pub get : Dict V → Text → Option V
  get [] k = none
  get ((j, v) ∷ d) k = if text_eq j k then some v else get d k

  -- `_, ok := d[k]`
  abbrev pub has : Dict V → Text → Bool
  has d k = is_some (get d k)

  -- `d[k] = v`
  unfoldable pub put : Dict V → Text → V → Dict V
  put [] k v = (k, v) ∷ []
  put ((j, w) ∷ d) k v = if text_eq j k then (j, v) ∷ d else (j, w) ∷ put d k v

  -- `delete(d, k)`
  unfoldable pub delete : Dict V → Text → Dict V
  delete [] k = []
  delete ((j, w) ∷ d) k = let rest = delete d k in if text_eq j k then rest else (j, w) ∷ rest

  -- `for k := range d` and `for _, v := range d`
  unfoldable pub keys : Dict V → List Text
  keys [] = []
  keys ((j, w) ∷ d) = j ∷ keys d

  unfoldable pub values : Dict V → List V
  values [] = []
  values ((j, w) ∷ d) = w ∷ values d
