-- ===== src/Compression/Tests.antt =====
-- A block of two bytes, with libraries that keep what they are given.
use gsnet.Common.{◌≡◌, refl, [], ◌∷◌, some, arith}
use gsnet.Compression.{Bytes, lz4, Libraries, compress, decompress}
use gsnet.Compression.Restored.{Restores, decompress-compress}

abbrev keeping : Libraries
keeping = record {
  zlib_compress = λ level s. some s;
  zlib_decompress = λ s. some s;
  compress_block = λ s. some s;
  uncompress_block = λ s n. some s;
}

some-flip : {s t : Bytes} → some s ≡ some t → some t ≡ some s
some-flip e = cc

keeping-Restores : Restores keeping
keeping-Restores = record {
  zlib_message = λ level s {o} e. some-flip e;
  lz4_block = λ s {c} {b} e. some-flip e;
}

compressed : compress keeping lz4 (7 ∷ 8 ∷ []) ≡ some (2 ∷ 0 ∷ 0 ∷ 0 ∷ 7 ∷ 8 ∷ [])
unfolding compress
compressed = refl

decompress-compress_example :
    decompress keeping lz4 (2 ∷ 0 ∷ 0 ∷ 0 ∷ 7 ∷ 8 ∷ []) ≡ some (7 ∷ 8 ∷ [])
decompress-compress_example =
    decompress-compress keeping lz4 (7 ∷ 8 ∷ []) (2 ∷ 0 ∷ 0 ∷ 0 ∷ 7 ∷ 8 ∷ []) keeping-Restores
      (λ e. cc e) (omega arith) compressed
