-- ===== src/Gossip/Message/Signing.antt =====
-- What a signature binds: the bytes that are signed determine the envelope.
use gsnet.Common.{
  ℕ, ◌+◌, ◌-◌, ◌*◌, ◌/◌, ◌%◌, ◌^◌, ◌<◌, ◌≡◌, refl, sym, ap, ◌∙◌, [], ◌∷◌, ◌++◌, true, none, some,
  Text, arith, drop,
}
use gsnet.Common.Int.{ℤ, pos, negsuc}
use gsnet.Strings.Decimal.{IsInt}
use gsnet.Strings.Cut.{Parts, cut, lacks, cut-append}
use gsnet.Gossip.Message.{Bytes, Envelope, bits64, ts_bytes, signing_bytes}

parts_of : Parts → Text × Text
parts_of none = ([], [])
parts_of (some q) = q

-- Two texts that end at the first zero byte.
cut_zero :
    (a b c d : Text)
    → lacks 0 a ≡ true
    → lacks 0 c ≡ true
    → a ++ (0 ∷ b) ≡ c ++ (0 ∷ d)
    → (a ≡ c) × (b ≡ d)
unfolding parts_of
cut_zero a b c d ha hc e =
    let same = sym (cut-append 0 a b ha) ∙ ap (cut 0) e ∙ cut-append 0 c d hc in
    (ap (λ r. (parts_of r).0) same, ap (λ r. (parts_of r).1) same)

abbrev be64 : Bytes → ℕ
be64 (a ∷ b ∷ c ∷ d ∷ e ∷ f ∷ g ∷ h ∷ rest) =
    a * 2 ^ 56 + b * 2 ^ 48 + c * 2 ^ 40 + d * 2 ^ 32 + e * 2 ^ 24 + f * 2 ^ 16 + g * 2 ^ 8 + h
be64 _ = 0

be64_lem :
    (n : ℕ)
    → n < 2 ^ 64
    → n / 2 ^ 56 % 256 * 2 ^ 56
        + n / 2 ^ 48 % 256 * 2 ^ 48
        + n / 2 ^ 40 % 256 * 2 ^ 40
        + n / 2 ^ 32 % 256 * 2 ^ 32
        + n / 2 ^ 24 % 256 * 2 ^ 24
        + n / 2 ^ 16 % 256 * 2 ^ 16
        + n / 2 ^ 8 % 256 * 2 ^ 8
        + n % 256
      ≡ n
be64_lem n h = omega arith

be64-ts_bytes : (ts : ℤ) (rest : Bytes) → IsInt ts → be64 (ts_bytes ts ++ rest) ≡ bits64 ts
unfolding ts_bytes
be64-ts_bytes (pos n) rest h = be64_lem n (omega arith)
be64-ts_bytes (negsuc n) rest h = be64_lem (2 ^ 64 - 1 - n) (omega arith)

drop-ts_bytes : (ts : ℤ) (b : Bytes) → drop 9 (ts_bytes ts ++ (0 ∷ b)) ≡ b
unfolding ts_bytes
drop-ts_bytes ts b = refl

bits64-injective : (a b : ℤ) → IsInt a → IsInt b → bits64 a ≡ bits64 b → a ≡ b
bits64-injective (pos a) (pos b) h k e = ap pos e
bits64-injective (pos a) (negsuc b) h k e = absurd (omega arith)
bits64-injective (negsuc a) (pos b) h k e = absurd (omega arith)
bits64-injective (negsuc a) (negsuc b) h k e = ap negsuc (omega arith)

-- Where ID, origin and kind hold no zero byte and the time stamps are `int64` values, two envelopes
-- with the same signing bytes agree in everything but their signatures.
pub signing_bytes-injective :
    (a b : Envelope)
    → lacks 0 a.id ≡ true
    → lacks 0 a.origin ≡ true
    → lacks 0 a.kind ≡ true
    → IsInt a.ts
    → lacks 0 b.id ≡ true
    → lacks 0 b.origin ≡ true
    → lacks 0 b.kind ≡ true
    → IsInt b.ts
    → signing_bytes a ≡ signing_bytes b
    → (a.id ≡ b.id)
      × (a.origin ≡ b.origin)
      × (a.kind ≡ b.kind)
      × (a.ts ≡ b.ts)
      × (a.payload ≡ b.payload)
unfolding signing_bytes
signing_bytes-injective a b ai ao ak at' bi bo bk bt e =
    let (ids, rest) = cut_zero a.id _ b.id _ ai bi e in
    let (origins, rest') = cut_zero a.origin _ b.origin _ ao bo rest in
    let (kinds, times) = cut_zero a.kind _ b.kind _ ak bk rest' in
    let same_bits =
      sym (be64-ts_bytes a.ts (0 ∷ a.payload) at')
      ∙ ap be64 times
      ∙ be64-ts_bytes b.ts (0 ∷ b.payload) bt in
    (
      ids,
      origins,
      kinds,
      bits64-injective a.ts b.ts at' bt same_bits,
      sym (drop-ts_bytes a.ts a.payload) ∙ ap (drop 9) times ∙ drop-ts_bytes b.ts b.payload,
    )
