-- ===== src/Dict/Entries.antt =====
-- The values of a map, as a `range` over it meets them.
use mathlib.Core.List.{Memᴰ}
use gsnet.Common.{◌≡◌, some, [], ◌∷◌, Text, text_eq, arith, Bool-cases, inl, inr}
use gsnet.Common.{refl, text_eq_iff, ◌||◌, false}
use gsnet.Dict.Laws.{get-put}
use gsnet.Dict.{Dict, get, values, put, has}

module _ {ℓ} {V : Type ℓ} where
  -- What a read finds is met by the loop over the values.
  pub mem-values : (d : Dict V) (k : Text) {v : V} → get d k ≡ some v → Memᴰ v (values d)
  unfolding get values
  mem-values [] k h = cc
  mem-values ((j, w) ∷ d) k h = elim (Bool-cases (text_eq j k)) [
    | inl e ↦ Memᴰ.head (ground arith)
    | inr e ↦ Memᴰ.tail (mem-values d k (ground arith))
  ]

  -- No key stands twice, so each entry is the one that a read finds.
  abbrev pub IsDict : Dict V → Type 0
  IsDict [] = Unit
  IsDict ((k, v) ∷ d) = (has d k ≡ false) × IsDict d

  pub has-put :
      (d : Dict V) (k : Text) (v : V) (j : Text) → has (put d k v) j ≡ (text_eq k j || has d j)
  has-put d k v j = ground (arith, get-put d k v j)

  pub put-IsDict : (d : Dict V) (k : Text) (v : V) → IsDict d → IsDict (put d k v)
  unfolding put get
  put-IsDict [] k v h = (refl, tt)
  put-IsDict ((j, w) ∷ d) k v h = elim (Bool-cases (text_eq j k)) [
    | inl e ↦ rw e h
    | inr e ↦
        rw e
          (ground (arith, has-put d k v j, text_eq_iff j k, text_eq_iff k j), put-IsDict d k v h.1)
  ]
