-- ===== src/NodeName/Expanded.antt =====
-- What `Expand` makes of a variable is a valid name, unless it is empty.
use gsnet.Common.{
  ◌≡◌, ◌≢◌, refl, ap, sym, ◌∙◌, ◌↔◌, [], ◌∷◌, ◌⊎◌, inl, inr, Option, none, some, Text, arith,
  length,
}
use gsnet.NodeName.{ok, check_runes, validate, sanitize, System, resolved, expand}

check_runes-sanitize : (s : Text) → check_runes (sanitize s) ≡ ok tt
unfolding check_runes sanitize
check_runes-sanitize [] = refl
check_runes-sanitize (r ∷ rs) = ground (arith, check_runes-sanitize rs)

sanitize_id : (s : Text) → check_runes s ≡ ok tt → sanitize s ≡ s
unfolding check_runes sanitize
sanitize_id [] h = refl
sanitize_id (r ∷ rs) h = ground (arith, sanitize_id rs)

validate-sanitize : (s : Text) → s ≢ [] → validate (sanitize s) ≡ ok tt
unfolding validate sanitize
validate-sanitize [] h = absurd (h refl)
validate-sanitize (r ∷ rs) h = check_runes-sanitize (r ∷ rs)

validate-check : (s : Text) → validate s ≡ ok tt → check_runes s ≡ ok tt
unfolding validate
validate-check [] h = cc
validate-check (r ∷ rs) h = h

length-sanitize : (s : Text) → length (sanitize s) ≡ length s
unfolding sanitize
length-sanitize [] = refl
length-sanitize (r ∷ rs) = omega (arith, length-sanitize rs)

-- A name that is not empty is valid exactly if cleaning leaves it as it is, and then also if it is
-- cleaned: a cleaned value is valid and as long as before.
pub sanitize_valid :
    (s : Text)
    → s ≢ []
    → ((validate s ≡ ok tt) ↔ (sanitize s ≡ s))
      × (validate (sanitize s) ≡ ok tt)
      × (length (sanitize s) ≡ length s)
sanitize_valid s ne = (
  ((λ v. sanitize_id s (validate-check s v)), λ e. ap validate (sym e) ∙ validate-sanitize s ne),
  validate-sanitize s ne,
  length-sanitize s,
)

-- The values that are in the environment of a variable: its own or the host name.
pub IsSource : System → Text → Text → Type 0
IsSource os name v =
    (os.lookup_env name ≡ some v) ⊎ (os.lookup_env name ≡ none) × (os.hostname ≡ some v)

ok-injective : {a b : Text} → ok a ≡ ok b → a ≡ b
ok-injective e = cc

cleaned : (v : Text) → (sanitize v ≡ []) ⊎ (validate (sanitize v) ≡ ok tt)
unfolding sanitize
cleaned [] = inl refl
cleaned (r ∷ rs) = inr (validate-sanitize (r ∷ rs) (λ e. cc e))

resolved-IsSource :
    (os : System) (name n : Text) (found host : Option Text)
    → os.lookup_env name ≡ found
    → os.hostname ≡ host
    → resolved found host ≡ ok n
    → (v : Text) × IsSource os name v × (n ≡ sanitize v) × ((n ≡ []) ⊎ (validate n ≡ ok tt))
unfolding resolved IsSource
resolved-IsSource os name n (some v) host f h e =
    (v, inl f, ok-injective (sym e), rw (ok-injective (sym e)) (cleaned v))
resolved-IsSource os name n none (some v) f h e =
    (v, inr (f, h), ok-injective (sym e), rw (ok-injective (sym e)) (cleaned v))
resolved-IsSource os name n none none f h e = cc

-- Where `Expand` of `$NAME` succeeds, the name is the cleaned value of the variable NAME or, whatever
-- NAME is, of the host name if that variable is not set, and it is valid unless it is empty.
pub expand_variable :
    (os : System) (name n : Text)
    → expand os (b'$' ∷ name) ≡ ok n
    → (v : Text) × IsSource os name v × (n ≡ sanitize v) × ((n ≡ []) ⊎ (validate n ≡ ok tt))
unfolding expand
expand_variable os name n e =
    resolved-IsSource os name n (os.lookup_env name) os.hostname refl refl e
