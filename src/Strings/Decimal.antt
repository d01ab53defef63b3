-- ===== src/Strings/Decimal.antt =====
-- `strconv.Itoa`, `%d`, and `strconv.Atoi`. Go's `int` is the range of `int64`.
use gsnet.Common.{
  ℕ, zero, suc, ◌+◌, ◌-◌, ◌*◌, ◌/◌, ◌%◌, ◌^◌, ◌<◌, ◌≡◌, ◌≢◌, refl, ◌∙◌, Option, none, some, [], ◌∷◌,
  ◌++◌, ◌&&◌, Bool, true, Text, leb, ltb, ◌==◌, if◌then◌else◌, arith, inl, inr, Bool-cases, all,
}
use gsnet.Common.Int.{ℤ, pos, negsuc}
use mathlib.Core.List.{concat-ne-nil}

abbrev pub is_digit : ℕ → Bool
is_digit c = leb b'0' c && leb c b'9'

-- The decimal digits of n, most significant first. A number below 10 ^ f needs f + 1 rounds; `itoa`
-- gives n + 1.
decimal : ℕ → ℕ → Text
decimal zero n = []
decimal (suc f) n =
    let rest = decimal f (n / 10) in
    if ltb n 10 then (b'0' + n) ∷ [] else rest ++ (b'0' + n % 10) ∷ []

unfoldable pub digits : ℕ → Text
unfolding decimal
digits n = decimal (suc n) n

unfoldable pub itoa : ℤ → Text
unfolding digits
itoa (pos n) = digits n
itoa (negsuc n) = b'-' ∷ digits (n + 1)

-- The value of a run of digits behind the value `acc`.
unfoldable pub read_digits : ℕ → Text → Option ℕ
read_digits acc [] = some acc
read_digits acc (c ∷ cs) =
    let rest = read_digits (acc * 10 + (c - b'0')) cs in if is_digit c then rest else none

unfoldable pub unsigned : Text → Option ℕ
unfolding read_digits
unsigned [] = none
unsigned (c ∷ cs) = read_digits 0 (c ∷ cs)

-- -n, as an integer.
abbrev pub negate : ℕ → ℤ
negate zero = pos 0
negate (suc n) = negsuc n

positive_in_range : Option ℕ → Option ℤ
positive_in_range none = none
positive_in_range (some n) = if ltb n (2 ^ 63) then some (pos n) else none

negative_in_range : Option ℕ → Option ℤ
negative_in_range none = none
negative_in_range (some n) = if leb n (2 ^ 63) then some (negate n) else none

-- `none` is an error: no digits, another character, or a value outside `int64`.
unfoldable pub atoi : Text → Option ℤ
unfolding unsigned positive_in_range negative_in_range
atoi [] = none
atoi (c ∷ cs) =
    if c == b'-'
    then negative_in_range (unsigned cs)
    else if c == b'+'
    then positive_in_range (unsigned cs)
    else positive_in_range (unsigned (c ∷ cs))

read_digits-concat :
    (xs : Text) (acc d v : ℕ)
    → d < 10
    → read_digits acc xs ≡ some v
    → read_digits acc (xs ++ (b'0' + d) ∷ []) ≡ some (v * 10 + d)
unfolding read_digits
read_digits-concat [] acc d v h e = ground arith
read_digits-concat (x ∷ xs) acc d v h e =
    ground (arith, read_digits-concat xs (acc * 10 + (x - b'0')) d v h)

read_digits-decimal : (f n : ℕ) → n < f → read_digits 0 (decimal f n) ≡ some n
unfolding read_digits decimal
read_digits-decimal zero n h = absurd (omega arith)
read_digits-decimal (suc f) n h = elim (Bool-cases (ltb n 10)) [
  | inl small ↦ ground arith
  | inr big ↦ ground (
    arith,
    big,
    read_digits-concat (decimal f (n / 10)) 0 (n % 10) (n / 10) (omega arith)
        (read_digits-decimal f (n / 10) (ground arith)),
  )
]

all-append-digit :
    (xs : Text) (c : ℕ)
    → all is_digit xs ≡ true
    → is_digit c ≡ true
    → all is_digit (xs ++ c ∷ []) ≡ true
all-append-digit [] c h d = ground arith
all-append-digit (x ∷ xs) c h d = ground (arith, all-append-digit xs c)

all-decimal : (f n : ℕ) → all is_digit (decimal f n) ≡ true
unfolding decimal
all-decimal zero n = refl
all-decimal (suc f) n = elim (Bool-cases (ltb n 10)) [
  | inl small ↦ ground arith
  | inr big ↦
      rw (big, decimal)
        (all-append-digit (decimal f (n / 10)) (b'0' + n % 10) (all-decimal f (n / 10))
          (ground arith))
]

decimal-ne-nil : (f n : ℕ) → decimal (suc f) n ≢ []
unfolding decimal
decimal-ne-nil f n = elim (Bool-cases (ltb n 10)) [
  | inl small ↦ ground arith
  | inr big ↦ rw (big, decimal) (concat-ne-nil (b'0' + n % 10) (decimal f (n / 10)))
]

pub all-digits : (n : ℕ) → all is_digit (digits n) ≡ true
unfolding digits
all-digits n = all-decimal (suc n) n

pub digits-ne-nil : (n : ℕ) → digits n ≢ []
unfolding digits
digits-ne-nil n = decimal-ne-nil n n

unsigned_lem : (s : Text) → s ≢ [] → unsigned s ≡ read_digits 0 s
unfolding unsigned
unsigned_lem [] h = absurd (h refl)
unsigned_lem (c ∷ cs) h = refl

pub unsigned-digits : (n : ℕ) → unsigned (digits n) ≡ some n
unsigned-digits n =
    unsigned_lem (digits n) (digits-ne-nil n)
    ∙ unfold digits in read_digits-decimal (suc n) n (omega arith)

-- A run of digits is read with no sign.
atoi-all : (s : Text) → s ≢ [] → all is_digit s ≡ true → atoi s ≡ positive_in_range (unsigned s)
unfolding atoi
atoi-all [] h d = absurd (h refl)
atoi-all (c ∷ cs) h d = ground arith

pub atoi-digits : (n : ℕ) → n < 2 ^ 63 → atoi (digits n) ≡ some (pos n)
unfolding positive_in_range
atoi-digits n h =
    atoi-all (digits n) (digits-ne-nil n) (all-digits n) ∙ ground (arith, unsigned-digits n)

abbrev pub IsInt : ℤ → Type 0
IsInt (pos n) = n < 2 ^ 63
IsInt (negsuc n) = n < 2 ^ 63

-- Atoi reads back what Itoa prints, for every `int`.
pub atoi-itoa : (z : ℤ) → IsInt z → atoi (itoa z) ≡ some z
unfolding itoa
atoi-itoa (pos n) h = atoi-digits n h
atoi-itoa (negsuc n) h = unfold atoi negative_in_range in ground (arith, unsigned-digits (n + 1))

positive-IsInt : (o : Option ℕ) {z : ℤ} → positive_in_range o ≡ some z → IsInt z
unfolding positive_in_range
positive-IsInt none h = cc
positive-IsInt (some n) {z = pos m} h = ground arith
positive-IsInt (some n) {z = negsuc m} h = ground arith

negative-IsInt : (o : Option ℕ) {z : ℤ} → negative_in_range o ≡ some z → IsInt z
unfolding negative_in_range
negative-IsInt none h = cc
negative-IsInt (some zero) {z = pos m} h = ground arith
negative-IsInt (some zero) {z = negsuc m} h = ground arith
negative-IsInt (some (suc n)) {z = pos m} h = ground arith
negative-IsInt (some (suc n)) {z = negsuc m} h = ground arith

-- What Atoi returns is an `int`.
pub atoi-IsInt : (s : Text) {z : ℤ} → atoi s ≡ some z → IsInt z
unfolding atoi
atoi-IsInt [] h = cc
atoi-IsInt (c ∷ cs) {z} h = elim (Bool-cases (c == b'-')) [
  | inl e ↦ negative-IsInt (unsigned cs) (rw (e, atoi) at h)
  | inr e ↦ elim (Bool-cases (c == b'+')) [
    | inl p ↦ positive-IsInt (unsigned cs) (rw (e, p, atoi) at h)
    | inr p ↦ positive-IsInt (unsigned (c ∷ cs)) (rw (e, p, atoi) at h)
  ]
]
