-- ===== src/Compression/Restored.antt =====
-- What a codec compressed it decompresses again.
use gsnet.Common.{
  ℕ, ◌+◌, ◌*◌, ◌/◌, ◌%◌, ◌^◌, ◌<◌, ◌≡◌, ◌≢◌, refl, sym, ap, ◌∙◌, [], ◌∷◌, Option, none, some, ◌==◌,
  if◌then◌else◌, length, arith,
}
use gsnet.Compression.{
  Bytes, Codec, passthrough, zlib, lz4, Libraries, with_size, framed, unframed, compress,
  decompress,
}

-- What is documented of the libraries: what was compressed is restored, a block by its size.
pub record Restores (lib : Libraries) : Type 0 where
  pub zlib_message :
      (level : ℕ) (s : Bytes) {o : Bytes}
      → lib.zlib_compress level s ≡ some o
      → lib.zlib_decompress o ≡ some s
  pub lz4_block :
      (s : Bytes) {c : ℕ} {b : Bytes}
      → lib.compress_block s ≡ some (c ∷ b)
      → lib.uncompress_block (c ∷ b) (length s) ≡ some s

length-ne : (s : Bytes) → s ≢ [] → 0 < length s
length-ne [] h = absurd (h refl)
length-ne (c ∷ s) h = omega arith

size-bytes :
    (n : ℕ)
    → n < 2 ^ 32
    → n % 2 ^ 32 % 256
        + n % 2 ^ 32 / 2 ^ 8 % 256 * 2 ^ 8
        + n % 2 ^ 32 / 2 ^ 16 % 256 * 2 ^ 16
        + n % 2 ^ 32 / 2 ^ 24 % 256 * 2 ^ 24
      ≡ n
size-bytes n h = omega arith

abbrev sized : Libraries → Bytes → ℕ → Option Bytes
sized lib body sz = if sz == 0 then some body else lib.uncompress_block body sz

unframed-framed :
    (lib : Libraries) (input out : Bytes) (block : Option Bytes)
    → Restores lib
    → input ≢ []
    → length input < 2 ^ 32
    → lib.compress_block input ≡ block
    → framed input block ≡ some out
    → unframed lib out ≡ some input
unfolding framed unframed
unframed-framed lib input out none r ne small b e = cc
unframed-framed lib input out (some []) r ne small b e =
    let same : 0 ∷ 0 ∷ 0 ∷ 0 ∷ input ≡ out = cc e in ap (unframed lib) (sym same)
unframed-framed lib input out (some (c ∷ block)) r ne small b e =
    let same : with_size (length input % 2 ^ 32) (c ∷ block) ≡ out = cc e in
    ap (unframed lib) (sym same)
    ∙ ap (sized lib (c ∷ block)) (size-bytes (length input) small)
    ∙ ground (arith, r.lz4_block input b, length-ne input ne)

-- Whatever the codec, what it makes of a message that is not empty and is shorter than 2^32 bytes it
-- turns into that message again, where zlib and lz4 restore what they compressed.
pub decompress-compress :
    (lib : Libraries) (c : Codec) (input out : Bytes)
    → Restores lib
    → input ≢ []
    → length input < 2 ^ 32
    → compress lib c input ≡ some out
    → decompress lib c out ≡ some input
unfolding compress decompress
decompress-compress lib passthrough input out r ne small e = sym e
decompress-compress lib (zlib level) input out r ne small e = r.zlib_message level input e
decompress-compress lib lz4 input out r ne small e =
    unframed-framed lib input out (lib.compress_block input) r ne small refl e
