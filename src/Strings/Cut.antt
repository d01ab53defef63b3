-- ===== src/Strings/Cut.antt =====
-- Searching for a byte: `strings.IndexByte` with the two slices that the program takes around it,
-- `strings.Cut`, `strings.LastIndexByte`, `strings.Split` and `strings.HasPrefix`.
use gsnet.Common.{
  ℕ, ◌≡◌, refl, ap, Option, none, some, List, [], ◌∷◌, ◌++◌, not, Bool, true, false, Text, ◌==◌,
  if◌then◌else◌, arith, inl, inr, Bool-cases, all,
}

abbrev pub Parts : Type 0
Parts = Option (Text × Text)

abbrev pub behind : ℕ → Parts → Parts
behind x none = none
behind x (some (a, b)) = some (x ∷ a, b)

-- `s[:i]` and `s[i+1:]` at the first `c`, if there is one.
unfoldable pub cut : ℕ → Text → Parts
cut c [] = none
cut c (x ∷ xs) = if x == c then some ([], xs) else behind x (cut c xs)

-- `s[:i]` and `s[i+1:]` at the last `c`, if there is one.
unfoldable pub cut_last : ℕ → Text → Parts
cut_last c [] = none
cut_last c (x ∷ xs) = elim (cut_last c xs) [
  | none ↦ if x == c then some ([], xs) else none
  | some (a, b) ↦ some (x ∷ a, b)
]

unfoldable pub split_onto : Text → ℕ → Text → List Text
split_onto piece c [] = piece ∷ []
split_onto piece c (x ∷ xs) =
    let next = piece ∷ split_onto [] c xs in
    let same = split_onto (piece ++ x ∷ []) c xs in if x == c then next else same

-- `strings.Split(s, c)`
abbrev pub split : ℕ → Text → List Text
split = split_onto []

-- The text behind a prefix, if `s` has it.
unfoldable pub strip_prefix : Text → Text → Option Text
strip_prefix [] s = some s
strip_prefix (p ∷ ps) [] = none
strip_prefix (p ∷ ps) (x ∷ xs) = if x == p then strip_prefix ps xs else none

-- The lines that `ReadString('\n')` and `ReadBytes('\n')` give in a loop, behind the part of a line read
-- so far. What follows the last newline is an error for them.
unfoldable pub ended_lines : Text → Text → List Text
ended_lines word [] = []
ended_lines word (x ∷ xs) =
    let next = word ∷ ended_lines [] xs in
    let same = ended_lines (word ++ x ∷ []) xs in if x == b'\n' then next else same

-- The text does not hold `c`.
abbrev pub lacks : ℕ → Text → Bool
lacks c s = all (λ x. not (x == c)) s

pub cut-append : (c : ℕ) (a b : Text) → lacks c a ≡ true → cut c (a ++ (c ∷ b)) ≡ some (a, b)
unfolding cut
cut-append c [] b h = ground arith
cut-append c (x ∷ a) b h = ground (arith, cut-append c a b)

pub cut-lacks : (c : ℕ) (a : Text) → lacks c a ≡ true → cut c a ≡ none
unfolding cut
cut-lacks c [] h = refl
cut-lacks c (x ∷ a) h = ground (arith, cut-lacks c a)

-- What a cut at `c` of `s` gave.
abbrev pub CutAt : ℕ → Text → Parts → Type 0
CutAt c s none = lacks c s ≡ true
CutAt c s (some (a, b)) = (s ≡ a ++ (c ∷ b)) × (lacks c a ≡ true)

behind-CutAt :
    (c x : ℕ) (s : Text) (p : Parts) → (x == c) ≡ false → CutAt c s p → CutAt c (x ∷ s) (behind x p)
behind-CutAt c x s none e h = ground arith
behind-CutAt c x s (some (a, b)) e h = (ap (◌∷◌ x) h.0, ground arith)

-- The two parts of a cut make up the text, and the first lacks the byte.
pub cut-CutAt : (c : ℕ) (s : Text) → CutAt c s (cut c s)
unfolding cut
cut-CutAt c [] = refl
cut-CutAt c (x ∷ s) = elim (Bool-cases (x == c)) [
  | inl e ↦ rw (e, cut) (ground arith, refl)
  | inr e ↦ rw (e, cut) (behind-CutAt c x s (cut c s) e (cut-CutAt c s))
]

pub cut_last-lacks : (c : ℕ) (a : Text) → lacks c a ≡ true → cut_last c a ≡ none
unfolding cut_last
cut_last-lacks c [] h = refl
cut_last-lacks c (x ∷ a) h = ground (arith, cut_last-lacks c a)

pub cut_last-append :
    (c : ℕ) (a b : Text) → lacks c b ≡ true → cut_last c (a ++ (c ∷ b)) ≡ some (a, b)
unfolding cut_last
cut_last-append c [] b h = ground (arith, cut_last-lacks c b)
cut_last-append c (x ∷ a) b h = ground (arith, cut_last-append c a b h)

pub strip_prefix-append : (p s : Text) → strip_prefix p (p ++ s) ≡ some s
unfolding strip_prefix
strip_prefix-append [] s = refl
strip_prefix-append (x ∷ p) s = ground (arith, strip_prefix-append p s)
