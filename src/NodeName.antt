-- ===== src/NodeName.antt =====
-- internal/nodename/nodename.go: names of nodes. A text is the list of its code points.
pub mod Expanded
mod Tests
use gsnet.Common.{
  ℕ, List, [], ◌∷◌, ◌||◌, ◌&&◌, Bool, true, false, Option, none, some, Text, leb, ◌==◌,
  if◌then◌else◌,
}

pub data Error : Type 0 where
  empty : Error
  invalid_character : ℕ → Error
  no_hostname : Error

pub data Result {ℓ} (A : Type ℓ) : Type ℓ where
  err : Error → Result A
  ok : A → Result A

unfoldable pub is_name_rune : ℕ → Bool
is_name_rune r =
    leb b'a' r && leb r b'z' || leb b'A' r && leb r b'Z' || leb b'0' r && leb r b'9' || r == b'_'

-- The loop of `Validate`.
check_runes : Text → Result (Unit {0})
unfolding is_name_rune
check_runes [] = ok tt
check_runes (r ∷ rs) =
    let rest = check_runes rs in if is_name_rune r then rest else err (invalid_character r)

unfoldable pub validate : Text → Result (Unit {0})
unfolding check_runes
validate [] = err empty
validate (r ∷ rs) = check_runes (r ∷ rs)

unfoldable pub sanitize : Text → Text
unfolding is_name_rune
sanitize [] = []
sanitize (r ∷ rs) = (if is_name_rune r then r else b'_') ∷ sanitize rs

-- `os.LookupEnv` and `os.Hostname`.
pub record System : Type 0 where
  pub lookup_env : Text → Option Text
  pub hostname : Option Text

resolved : Option Text → Option Text → Result Text
unfolding sanitize
resolved (some val) host = ok (sanitize val)
resolved none (some h) = ok (sanitize h)
resolved none none = err no_hostname

-- `Expand`
unfoldable pub expand : System → Text → Result Text
unfolding resolved
expand os [] = ok []
expand os (c ∷ name) =
    if c == b'$' then resolved (os.lookup_env name) os.hostname else ok (c ∷ name)
