-- ===== src/Dict/Laws.antt =====
-- Reading a map after a write or a deletion.
use gsnet.Common.{
  ◌+◌, ◌≡◌, refl, none, some, [], ◌∷◌, Text, text_eq, text_eq_iff, if◌then◌else◌, arith, length,
}
use gsnet.Dict.{Dict, contains, get, has, put, delete, keys}

module _ {ℓ} {V : Type ℓ} where
  pub get-put :
      (d : Dict V) (k : Text) (v : V) (j : Text)
      → get (put d k v) j ≡ (if text_eq k j then some v else get d j)
  unfolding get put
  get-put [] k v j = refl
  get-put ((i, w) ∷ d) k v j =
      ground (arith, get-put d k v j, text_eq_iff i k, text_eq_iff i j, text_eq_iff k j)

  pub get-delete :
      (d : Dict V) (k j : Text) → get (delete d k) j ≡ (if text_eq k j then none else get d j)
  unfolding get delete
  get-delete [] k j = ground arith
  get-delete ((i, w) ∷ d) k j =
      ground (arith, get-delete d k j, text_eq_iff i k, text_eq_iff i j, text_eq_iff k j)

  -- A `range` over the keys meets exactly the keys that a read finds.
  pub contains-keys : (d : Dict V) (k : Text) → contains k (keys d) ≡ has d k
  unfolding contains keys get
  contains-keys [] k = refl
  contains-keys ((j, w) ∷ d) k = ground (arith, contains-keys d k)

  -- A write adds an entry exactly if its key is new.
  pub length-put :
      (d : Dict V) (k : Text) (v : V)
      → length (put d k v) ≡ (if has d k then length d else length d + 1)
  unfolding get put
  length-put [] k v = refl
  length-put ((i, w) ∷ d) k v = ground (arith, length-put d k v)

pub ruleset dict_laws = (get-put, get-delete)
