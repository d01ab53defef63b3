-- ===== src/Compression.antt =====
-- internal/compression/compression.go: the codecs. zlib and lz4 are parameters.
pub mod Restored
mod Tests
use gsnet.Common.{
  ℕ, ◌+◌, ◌*◌, ◌/◌, ◌%◌, ◌^◌, List, [], ◌∷◌, ◌++◌, ◌&&◌, ◌||◌, Option, none, some, leb, ◌==◌,
  if◌then◌else◌, length,
}
use gsnet.Common.Int.{ℤ, pos, negsuc}

abbrev pub Bytes : Type 0
Bytes = List ℕ

pub data Codec : Type 0 where
  passthrough lz4 : Codec
  zlib : ℕ → Codec

pub data Made : Type 0 where
  made : Codec → Made
  lzo_unsupported invalid_level : Made

-- `New`
unfoldable pub new : ℤ → Made
new (pos level) =
    if level == 0
    then made passthrough
    else if leb 1 level && leb level 9
    then made (zlib level)
    else if level == 10 || level == 11
    then lzo_unsupported
    else if level == 12
    then made lz4
    else invalid_level
new (negsuc level) = invalid_level

-- A zlib writer and reader run over a whole message, and lz4's `CompressBlock` (what it leaves in the
-- buffer) and `UncompressBlock` into a buffer of the given size. `none` is an error.
pub record Libraries : Type 0 where
  pub zlib_compress : ℕ → Bytes → Option Bytes
  pub zlib_decompress : Bytes → Option Bytes
  pub compress_block : Bytes → Option Bytes
  pub uncompress_block : Bytes → ℕ → Option Bytes

-- The size in four bytes, least significant first, before the block.
abbrev pub with_size : ℕ → Bytes → Bytes
with_size sz block = sz % 256 ∷ sz / 2 ^ 8 % 256 ∷ sz / 2 ^ 16 % 256 ∷ sz / 2 ^ 24 % 256 ∷ block

-- Blocks: the original size in four bytes, or zeros before what is stored as it is.
framed : Bytes → Option Bytes → Option Bytes
framed input none = none
framed input (some []) = some (0 ∷ 0 ∷ 0 ∷ 0 ∷ input)
framed input (some (b ∷ block)) = some (with_size (length input % 2 ^ 32) (b ∷ block))

unframed : Libraries → Bytes → Option Bytes
unframed lib (a ∷ b ∷ c ∷ d ∷ body) =
    let sz = a + b * 2 ^ 8 + c * 2 ^ 16 + d * 2 ^ 24 in
    if sz == 0 then some body else lib.uncompress_block body sz
unframed lib _ = none

-- `Compress` and `Decompress` of each codec
pub compress : Libraries → Codec → Bytes → Option Bytes
unfolding framed
compress lib passthrough input = some input
compress lib (zlib level) input = lib.zlib_compress level input
compress lib lz4 input = framed input (lib.compress_block input)

pub decompress : Libraries → Codec → Bytes → Option Bytes
unfolding unframed
decompress lib passthrough input = some input
decompress lib (zlib level) input = lib.zlib_decompress input
decompress lib lz4 input = unframed lib input
