-- ===== src/Strings/Kept.antt =====
-- A test that every character of a text passes is passed by every character of its parts.
use gsnet.Common.{
  ℕ, zero, suc, ◌≡◌, ◌≢◌, refl, sym, List, [], ◌∷◌, ◌++◌, Bool, true, false, Text, drop, all, arith,
  Bool-cases, inl, inr,
}
use mathlib.Core.List.{append_assoc}
use gsnet.Strings.Space.{
  newline-is_space, is_space, trim_left, trim_onto, trim_right, trim_space, starts_plain,
  ends_plain, IsTrimmed,
}
use gsnet.Strings.Cut.{lacks}
use gsnet.Strings.Fields.{fields, fields_onto, flush, plain}

pub all-drop : (p : ℕ → Bool) (n : ℕ) (s : Text) → all p s ≡ true → all p (drop n s) ≡ true
all-drop p zero s h = h
all-drop p (suc n) [] h = h
all-drop p (suc n) (c ∷ s) h = all-drop p n s (ground arith)

pub all-append :
    (p : ℕ → Bool) (a b : Text) → all p (a ++ b) ≡ true → (all p a ≡ true) × (all p b ≡ true)
all-append p [] b h = (refl, h)
all-append p (c ∷ a) b h = ground (arith, all-append p a b)

all-trim_left : (p : ℕ → Bool) (s : Text) → all p s ≡ true → all p (trim_left s) ≡ true
unfolding trim_left
all-trim_left p [] h = refl
all-trim_left p (c ∷ s) h = ground (arith, all-trim_left p s)

all-trim_onto :
    (p : ℕ → Bool) (c : ℕ) (t : Text) → p c ≡ true → all p t ≡ true → all p (trim_onto c t) ≡ true
unfolding trim_onto
all-trim_onto p c [] h k = ground arith
all-trim_onto p c (d ∷ t) h k = ground arith

pub all-trim_right : (p : ℕ → Bool) (s : Text) → all p s ≡ true → all p (trim_right s) ≡ true
unfolding trim_right
all-trim_right p [] h = refl
all-trim_right p (c ∷ s) h =
    all-trim_onto p c (trim_right s) (ground arith) (all-trim_right p s (ground arith))

pub all-trim_space : (p : ℕ → Bool) (s : Text) → all p s ≡ true → all p (trim_space s) ≡ true
unfolding trim_space
all-trim_space p s h = all-trim_right p (trim_left s) (all-trim_left p s h)

plain-ends : (s : Text) → plain s ≡ true → ends_plain s ≡ true
plain-ends [] h = refl
plain-ends (c ∷ []) h = ground arith
plain-ends (c ∷ d ∷ s) h = plain-ends (d ∷ s) (ground arith)

plain-starts : (s : Text) → plain s ≡ true → starts_plain s ≡ true
plain-starts [] h = refl
plain-starts (c ∷ s) h = ground arith

pub plain-IsTrimmed : (s : Text) → plain s ≡ true → IsTrimmed s
plain-IsTrimmed s h = record { starts = plain-starts s h; ends = plain-ends s h }

-- The first field of a text is in front of it.
pub record Leads (k s : Text) : Type 0 where
  pub rest : Text
  pub whole : s ≡ k ++ rest
  pub no_space : plain k ≡ true
  pub ne : k ≢ []

plain-concat : (w : Text) (c : ℕ) → plain w ≡ true → is_space c ≡ false → plain (w ++ c ∷ []) ≡ true
plain-concat [] c h e = ground arith
plain-concat (x ∷ w) c h e = ground (arith, plain-concat w c)

concat-ne : (w : Text) (c : ℕ) → w ++ c ∷ [] ≢ []
concat-ne [] c e = cc e
concat-ne (x ∷ w) c e = cc e

stop-Leads : (word s k : Text) → word ≢ [] → plain word ≡ true → word ≡ k → Leads k (word ++ s)
stop-Leads word s k ne h e = rw (← e) (record { rest = s; whole = refl; no_space = h; ne = ne })

fields_onto-Leads :
    (word s : Text) {k : Text} {more : List Text}
    → word ≢ []
    → plain word ≡ true
    → fields_onto word s ≡ k ∷ more
    → Leads k (word ++ s)
unfolding fields_onto
fields_onto-Leads [] s ne h e = absurd (ne refl)
fields_onto-Leads (w ∷ ws) [] ne h e = stop-Leads (w ∷ ws) [] _ ne h (cc e)
fields_onto-Leads (w ∷ ws) (c ∷ s) {k} ne h e = elim (Bool-cases (is_space c)) [
  | inl sp ↦ stop-Leads (w ∷ ws) (c ∷ s) _ ne h (cc (rw (sp, fields_onto) at e))
  | inr pl ↦ rw (sym (append_assoc (w ∷ ws) (c ∷ []) s)) (
      fields_onto-Leads ((w ∷ ws) ++ c ∷ []) s (concat-ne (w ∷ ws) c) (plain-concat (w ∷ ws) c h pl)
        (rw (pl, fields_onto) at e))
]

-- A text that does not begin with a space begins with its first field.
pub fields-Leads :
    (s : Text) {k : Text} {more : List Text}
    → starts_plain s ≡ true
    → fields s ≡ k ∷ more
    → Leads k s
unfolding fields_onto flush
fields-Leads [] h e = cc
fields-Leads (c ∷ s) {k} {more} h e =
    fields_onto-Leads (c ∷ []) s {k = k} {more = more} (λ p. cc p) (ground arith) (ground arith)

-- A text without spaces has no newline.
pub plain-lacks : (w : Text) → plain w ≡ true → lacks b'\n' w ≡ true
plain-lacks [] h = refl
plain-lacks (x ∷ w) h = ground (arith, plain-lacks w, newline-is_space)
