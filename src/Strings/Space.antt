-- ===== src/Strings/Space.antt =====
-- `unicode.IsSpace` and `strings.TrimSpace`, over code points.
use gsnet.Common.{
  ℕ, ◌≡◌, ◌≢◌, refl, ap, ◌∙◌, [], ◌∷◌, ◌++◌, ◌&&◌, ◌||◌, not, Bool, true, false, Text, leb, ◌==◌,
  if◌then◌else◌, arith,
}

-- The characters with the property White_Space.
unfoldable pub is_space : ℕ → Bool
is_space c =
    leb 0x9 c && leb c 0xd
    || c == 0x20
    || c == 0x85
    || c == 0xa0
    || c == 0x1680
    || leb 0x2000 c && leb c 0x200a
    || c == 0x2028
    || c == 0x2029
    || c == 0x202f
    || c == 0x205f
    || c == 0x3000

unfoldable pub trim_left : Text → Text
trim_left [] = []
trim_left (c ∷ cs) = let rest = trim_left cs in if is_space c then rest else c ∷ cs

-- Puts `c` in front of what trimming on the right left of the text behind it.
unfoldable pub trim_onto : ℕ → Text → Text
trim_onto c [] = if is_space c then [] else c ∷ []
trim_onto c (d ∷ ds) = c ∷ d ∷ ds

unfoldable pub trim_right : Text → Text
unfolding trim_onto
trim_right [] = []
trim_right (c ∷ cs) = trim_onto c (trim_right cs)

unfoldable pub trim_space : Text → Text
unfolding trim_left trim_right is_space
trim_space s = trim_right (trim_left s)

-- No space at either end.
abbrev pub starts_plain : Text → Bool
starts_plain [] = true
starts_plain (c ∷ cs) = not (is_space c)

abbrev pub ends_plain : Text → Bool
ends_plain [] = true
ends_plain (c ∷ []) = not (is_space c)
ends_plain (c ∷ d ∷ ds) = ends_plain (d ∷ ds)

pub record IsTrimmed (s : Text) : Type 0 where
  pub starts : starts_plain s ≡ true
  pub ends : ends_plain s ≡ true

trim_left-starts : (s : Text) → starts_plain (trim_left s) ≡ true
unfolding trim_left
trim_left-starts [] = refl
trim_left-starts (c ∷ cs) = ground (arith, trim_left-starts cs)

ends-trim_onto : (c : ℕ) (t : Text) → ends_plain t ≡ true → ends_plain (trim_onto c t) ≡ true
unfolding trim_onto
ends-trim_onto c [] h = ground arith
ends-trim_onto c (d ∷ ds) h = h

trim_right-ends : (s : Text) → ends_plain (trim_right s) ≡ true
unfolding trim_right
trim_right-ends [] = refl
trim_right-ends (c ∷ cs) = ends-trim_onto c (trim_right cs) (trim_right-ends cs)

starts-trim_onto : (c : ℕ) (t : Text) → is_space c ≡ false → starts_plain (trim_onto c t) ≡ true
unfolding trim_onto
starts-trim_onto c [] h = ground arith
starts-trim_onto c (d ∷ ds) h = ground arith

trim_right-starts : (s : Text) → starts_plain s ≡ true → starts_plain (trim_right s) ≡ true
unfolding trim_right
trim_right-starts [] h = refl
trim_right-starts (c ∷ cs) h = starts-trim_onto c (trim_right cs) (ground arith)

-- TrimSpace leaves no space at either end.
pub trim_space-IsTrimmed : (s : Text) → IsTrimmed (trim_space s)
unfolding trim_space
trim_space-IsTrimmed s = record {
  starts = trim_right-starts (trim_left s) (trim_left-starts s);
  ends = trim_right-ends (trim_left s);
}

trim_left_id : (s : Text) → starts_plain s ≡ true → trim_left s ≡ s
unfolding trim_left
trim_left_id [] h = refl
trim_left_id (c ∷ cs) h = ground arith

trim_right_id : (s : Text) → ends_plain s ≡ true → trim_right s ≡ s
unfolding trim_right
trim_right_id [] h = refl
trim_right_id (c ∷ []) h = unfold trim_onto in ground arith
trim_right_id (c ∷ d ∷ ds) h = ap (trim_onto c) (trim_right_id (d ∷ ds) h)

-- TrimSpace changes nothing where there is nothing to trim.
pub trim_space_id : (s : Text) → IsTrimmed s → trim_space s ≡ s
unfolding trim_space
trim_space_id s h = ap trim_right (trim_left_id s h.starts) ∙ trim_right_id s h.ends

-- A space in front is dropped.
pub trim_space-cons : (c : ℕ) (s : Text) → is_space c ≡ true → trim_space (c ∷ s) ≡ trim_space s
unfolding trim_space trim_left
trim_space-cons c s h = rw h

trim_right-concat : (s : Text) (c : ℕ) → is_space c ≡ true → trim_right (s ++ c ∷ []) ≡ trim_right s
unfolding trim_right
trim_right-concat [] c h = unfold trim_onto in ground arith
trim_right-concat (x ∷ s) c h = ap (trim_onto x) (trim_right-concat s c h)

pub starts_plain-append : (s t : Text) → s ≢ [] → starts_plain (s ++ t) ≡ starts_plain s
starts_plain-append [] t h = absurd (h refl)
starts_plain-append (c ∷ s) t h = refl

pub ends_plain-append : (s t : Text) → t ≢ [] → ends_plain (s ++ t) ≡ ends_plain t
ends_plain-append [] t h = refl
ends_plain-append (c ∷ []) [] h = absurd (h refl)
ends_plain-append (c ∷ []) (d ∷ t) h = refl
ends_plain-append (c ∷ d ∷ s) t h = ends_plain-append (d ∷ s) t h

-- A space behind a trimmed text is dropped.
pub trim_space-concat :
    (s : Text) (c : ℕ) → IsTrimmed s → s ≢ [] → is_space c ≡ true → trim_space (s ++ c ∷ []) ≡ s
unfolding trim_space
trim_space-concat s c h ne e =
    ap trim_right (trim_left_id (s ++ c ∷ []) (starts_plain-append s (c ∷ []) ne ∙ h.starts))
    ∙ trim_right-concat s c e
    ∙ trim_right_id s h.ends

pub blank-is_space : is_space b' ' ≡ true
unfolding is_space
blank-is_space = refl

pub cr-is_space : is_space b'\r' ≡ true
unfolding is_space
cr-is_space = refl

pub newline-is_space : is_space b'\n' ≡ true
unfolding is_space
newline-is_space = refl
