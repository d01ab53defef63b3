-- ===== src/Config/Lookup.antt =====
-- `GetFirst` and `GetAll` answer alike, and whatever the case of the key asked for.
use gsnet.Common.{
  ◌≡◌, refl, ap, sym, ◌∙◌, List, [], ◌∷◌, map, true, Option, none, some, Text, text_eq, text_eq_iff,
  arith,
}
use gsnet.Strings.Fold.{equal_fold, fold}
use gsnet.Config.{Entry, get_first, get_all}

abbrev pub head? : List Text → Option Text
head? [] = none
head? (v ∷ vs) = some v

pub first-all : (es : List Entry) (k : Text) → get_first es k ≡ head? (get_all es k)
unfolding get_first get_all
first-all [] k = refl
first-all (e ∷ es) k = ground (arith, first-all es k)

equal_fold_fold : (s k j : Text) → equal_fold k j ≡ true → equal_fold s k ≡ equal_fold s j
unfolding equal_fold
equal_fold_fold s k j h = ap (text_eq (map fold s)) ((text_eq_iff (map fold k) (map fold j)).0 h)

get_all_fold : (es : List Entry) (k j : Text) → equal_fold k j ≡ true → get_all es k ≡ get_all es j
unfolding get_all
get_all_fold [] k j h = refl
get_all_fold (e ∷ es) k j h = ground (arith, equal_fold_fold e.key k j h, get_all_fold es k j h)

-- `GetFirst` returns the first of the values of `GetAll`, and nothing if there are none; two spellings
-- of a key that differ in case only have the same values.
pub lookups_agree :
    (es : List Entry) (k j : Text)
    → equal_fold k j ≡ true
    → (get_first es k ≡ head? (get_all es k))
      × (get_all es k ≡ get_all es j)
      × (get_first es k ≡ get_first es j)
lookups_agree es k j h = (
  first-all es k,
  get_all_fold es k j h,
  first-all es k ∙ ap head? (get_all_fold es k j h) ∙ sym (first-all es j),
)
