-- ===== src/Config/Parsed.antt =====
-- What `Parse` returns can be written back: every entry has the form that `Render` keeps.
use gsnet.Common.{
  ℕ, ◌≡◌, refl, sym, ◌∙◌, List, [], ◌∷◌, ◌++◌, ◌&&◌, not, Bool, true, false, Option, none, some,
  Text, text_eq, text_eq_iff, length, drop, ◌==◌, arith, inl, inr, Bool-cases,
}
use gsnet.Dict.{Dict, get}
use gsnet.Strings.Space.{
  is_space, trim_space, trim_space-IsTrimmed, starts_plain, ends_plain, trim_left, trim_onto,
  IsTrimmed, trim_right,
}
use gsnet.Strings.Cut.{Parts, cut, lacks, CutAt, cut-CutAt}
use gsnet.Strings.Fields.{fields}
use gsnet.Strings.Fold.{to_lower}
use gsnet.Strings.Kept.{all-trim_space, all-append, all-drop, plain-IsTrimmed, Leads, fields-Leads}
use gsnet.Config.Keys.{canonical_key, canonical, or_same}
use gsnet.Config.Rendered.{IsKey, IsValue}
use gsnet.Config.{
  Entry, Result, ok, err, entry_of_parts, entry_of_fields, parse_line, is_comment, make_entry,
}

-- The form of a key, but for its spelling.
good_key : Text → Bool
good_key k =
    starts_plain k
    && ends_plain k
    && not (text_eq k [])
    && lacks b'=' k
    && lacks b'\n' k
    && not (is_comment k)

-- Every spelling in the table has the form of a key, and is its own canonical spelling.
good_values : Dict Text → Bool
good_values [] = true
good_values ((l, c) ∷ d) = good_key c && text_eq (canonical_key c) c && good_values d

good_values-canonical : good_values canonical ≡ true
unfolding good_values good_key canonical_key is_space text_eq get to_lower
good_values-canonical = refl

good_values-get :
    (d : Dict Text) (k : Text) {c : Text}
    → good_values d ≡ true
    → get d k ≡ some c
    → (good_key c ≡ true) × (canonical_key c ≡ c)
unfolding good_values get
good_values-get [] k h e = cc
good_values-get ((l, c') ∷ d) k {c} h e = elim (Bool-cases (text_eq l k)) [
  | inl q ↦
      let same : c' ≡ c = ground arith in
      rw (← same) (ground arith, (text_eq_iff (canonical_key c') c').0 (ground arith))
  | inr q ↦ good_values-get d k (ground arith) (ground arith)
]

or_same-good :
    (k : Text) (o : Option Text)
    → o ≡ get canonical (to_lower k)
    → good_key k ≡ true
    → (good_key (or_same k o) ≡ true) × (canonical_key (or_same k o) ≡ or_same k o)
unfolding or_same
or_same-good k none e h = (h, unfold canonical_key in rw (← e))
or_same-good k (some c) e h = good_values-get canonical (to_lower k) good_values-canonical (sym e)

canonical_key-good :
    (k : Text)
    → good_key k ≡ true
    → (good_key (canonical_key k) ≡ true) × (canonical_key (canonical_key k) ≡ canonical_key k)
unfolding canonical_key
canonical_key-good k h = or_same-good k (get canonical (to_lower k)) refl h

good-IsKey : (k : Text) → good_key k ≡ true → canonical_key k ≡ k → IsKey k
unfolding good_key
good-IsKey k h c = record {
  trimmed = record { starts = ground arith; ends = ground arith };
  ne = λ p. ground (arith, text_eq_iff k []);
  no_equals = ground arith;
  no_newline = ground arith;
  no_comment = ground arith;
  canonical = c;
}

-- A line that is trimmed and no comment, and holds no newline.
pub record IsLine (s : Text) : Type 0 where
  pub trimmed : IsTrimmed s
  pub no_comment : is_comment s ≡ false
  pub no_newline : lacks b'\n' s ≡ true

-- The parts of an entry, before the spelling of the key.
record IsParts (k v : Text) : Type 0 where
  key : IsTrimmed k
  value : IsTrimmed v
  no_equals : lacks b'=' k ≡ true
  key_line : lacks b'\n' k ≡ true
  value_line : lacks b'\n' v ≡ true
  no_comment : is_comment k ≡ false

abbrev pub Wanted : Result Entry → Type 0
Wanted (err e) = Unit
Wanted (ok e) = IsKey e.key × IsValue e.value

parts-good : (k v : Text) → IsParts k v → text_eq k [] ≡ false → good_key k ≡ true
unfolding good_key
parts-good k v h e = ground arith

make_entry-Wanted : (k v : Text) → IsParts k v → Wanted (make_entry k v)
unfolding make_entry
make_entry-Wanted k v h = elim (Bool-cases (text_eq k [])) [
  | inl e ↦ rw (e, make_entry) tt
  | inr e ↦ elim (Bool-cases (text_eq v [])) [
    | inl f ↦ rw (e, f, make_entry) tt
    | inr f ↦
        let (good, same) = canonical_key-good k (parts-good k v h e) in
        rw (e, f, make_entry)
          (
            good-IsKey (canonical_key k) good same,
            record {
              trimmed = h.value;
              ne = λ p. ground (arith, text_eq_iff v []);
              no_newline = h.value_line;
            },
          )
  ]
]

head-trim_onto : (c : ℕ) (t : Text) → is_space c ≡ false → is_comment (trim_onto c t) ≡ (c == b'#')
unfolding trim_onto
head-trim_onto c [] h = ground arith
head-trim_onto c (d ∷ t) h = refl

head-trim_space : (s : Text) → starts_plain s ≡ true → is_comment (trim_space s) ≡ is_comment s
unfolding trim_space trim_left trim_right
head-trim_space [] h = refl
head-trim_space (c ∷ s) h = ground (arith, head-trim_onto c (trim_right s))

starts_plain-front : (a b : Text) → starts_plain (a ++ b) ≡ true → starts_plain a ≡ true
starts_plain-front [] b h = refl
starts_plain-front (c ∷ a) b h = h

comment-front : (a b : Text) → is_comment (a ++ b) ≡ false → is_comment a ≡ false
comment-front [] b h = refl
comment-front (c ∷ a) b h = h

trim_space-IsParts :
    (s a b : Text)
    → IsLine s
    → s ≡ a ++ (b'=' ∷ b)
    → lacks b'=' a ≡ true
    → IsParts (trim_space a) (trim_space b)
trim_space-IsParts s a b h e na =
    let lines = all-append (λ c. not (c == b'\n')) a (b'=' ∷ b) (rw e at h.no_newline) in
    record {
      key = trim_space-IsTrimmed a;
      value = trim_space-IsTrimmed b;
      no_equals = all-trim_space (λ c. not (c == b'=')) a na;
      key_line = all-trim_space (λ c. not (c == b'\n')) a lines.0;
      value_line = all-trim_space (λ c. not (c == b'\n')) b (ground arith);
      no_comment =
          head-trim_space a (starts_plain-front a (b'=' ∷ b) (rw e at h.trimmed.starts))
          ∙ comment-front a (b'=' ∷ b) (rw e at h.no_comment);
    }

fields-IsParts :
    (s k : Text)
    → IsLine s
    → lacks b'=' s ≡ true
    → Leads k s
    → IsParts k (trim_space (drop (length k) s))
fields-IsParts s k h n l = record {
  key = plain-IsTrimmed k l.no_space;
  value = trim_space-IsTrimmed (drop (length k) s);
  no_equals = (all-append (λ c. not (c == b'=')) k l.rest (rw l.whole at n)).0;
  key_line = (all-append (λ c. not (c == b'\n')) k l.rest (rw l.whole at h.no_newline)).0;
  value_line =
      all-trim_space (λ c. not (c == b'\n')) (drop (length k) s)
        (all-drop (λ c. not (c == b'\n')) (length k) s h.no_newline);
  no_comment = comment-front k l.rest (rw l.whole at h.no_comment);
}

entry_of_fields-Wanted :
    (s : Text) (fs : List Text)
    → IsLine s
    → lacks b'=' s ≡ true
    → fields s ≡ fs
    → Wanted (entry_of_fields s fs)
unfolding entry_of_fields
entry_of_fields-Wanted s [] h n e = tt
entry_of_fields-Wanted s (k ∷ []) h n e = tt
entry_of_fields-Wanted s (k ∷ f ∷ fs) h n e =
    make_entry-Wanted k _ (fields-IsParts s k h n (fields-Leads s h.trimmed.starts e))

entry_of_parts-Wanted :
    (s : Text) (p : Parts) → IsLine s → CutAt b'=' s p → Wanted (entry_of_parts s p)
unfolding entry_of_parts
entry_of_parts-Wanted s none h c = entry_of_fields-Wanted s (fields s) h c refl
entry_of_parts-Wanted s (some (a, b)) h c =
    make_entry-Wanted _ _ (trim_space-IsParts s a b h c.0 c.1)

pub parse_line-Wanted : (s : Text) → IsLine s → Wanted (parse_line s)
unfolding parse_line
parse_line-Wanted s h = entry_of_parts-Wanted s (cut b'=' s) h (cut-CutAt b'=' s)
