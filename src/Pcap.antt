-- ===== src/Pcap.antt =====
-- internal/pcap/pcap.go: savefiles. An `io.Writer` is a parameter; a reader is the bytes still to come.
pub mod Saved
mod Tests
use gsnet.Common.{
  ℕ, ◌+◌, ◌*◌, ◌/◌, ◌%◌, ◌^◌, List, [], ◌∷◌, ◌++◌, Bool, true, false, Option, none, some, leb, ltb,
  ◌==◌, if◌then◌else◌, take, drop, length,
}

abbrev pub Bytes : Type 0
Bytes = List ℕ

-- An `io.Writer` with state S: what `Write` makes of it, `none` for an error.
abbrev pub Sink : Type 0 → Type 0
Sink S = S → Bytes → Option S

-- `binary.LittleEndian.PutUint16` and `PutUint32`
abbrev pub put_u16 : ℕ → Bytes
put_u16 n = n % 256 ∷ n / 2 ^ 8 % 256 ∷ []

abbrev pub put_u32 : ℕ → Bytes
put_u32 n = n % 256 ∷ n / 2 ^ 8 % 256 ∷ n / 2 ^ 16 % 256 ∷ n / 2 ^ 24 % 256 ∷ []

-- `Uint32` of the first four bytes in either order; the callers read from headers of full length.
abbrev pub u32 : Bool → Bytes → ℕ
u32 true (a ∷ b ∷ c ∷ d ∷ rest) = a + b * 2 ^ 8 + c * 2 ^ 16 + d * 2 ^ 24
u32 false (a ∷ b ∷ c ∷ d ∷ rest) = d + c * 2 ^ 8 + b * 2 ^ 16 + a * 2 ^ 24
u32 little _ = 0

abbrev pub magic : ℕ
magic = 0xa1b2c3d4

pub record Writer (S : Type 0) : Type 0 where
  pub out : S
  pub link_type : ℕ
  pub snaplen : ℕ

abbrev pub file_header : ℕ → ℕ → Bytes
file_header link_type snaplen =
    put_u32 magic
    ++ (put_u16 2
        ++ (put_u16 4 ++ (put_u32 0 ++ (put_u32 0 ++ (put_u32 snaplen ++ put_u32 link_type)))))

abbrev pub captured : ℕ → Bytes → ℕ
captured snaplen bytes = let cap = length bytes % 2 ^ 32 in if ltb snaplen cap then snaplen else cap

-- A time is its seconds, not below 0, and nanoseconds.
pub record Time : Type 0 where
  pub sec : ℕ
  pub nsec : ℕ

abbrev pub record_header : ℕ → Time → Bytes → Bytes
record_header snaplen ts bytes =
    put_u32 (ts.sec % 2 ^ 32)
    ++ (put_u32 (ts.nsec / 1000 % 2 ^ 32)
        ++ (put_u32 (captured snaplen bytes) ++ put_u32 (length bytes % 2 ^ 32)))

module _ {S : Type 0} (write : Sink S) where
  -- `NewWriter`
  pub new_writer : S → ℕ → ℕ → Option (Writer S)
  new_writer s link_type snaplen = elim (write s (file_header link_type snaplen)) [
    | none ↦ none
    | some t ↦ some (record { out = t; link_type = link_type; snaplen = snaplen })
  ]

  written : Writer S → Option S → Option (Writer S)
  written p none = none
  written p (some s) = some (record p { out = s })

  write_data : Writer S → Option S → Bytes → Option (Writer S)
  unfolding written
  write_data p none bytes = none
  write_data p (some s) bytes = written p (write s bytes)

  -- `WritePacket`
  pub write_packet : Writer S → Time → Bytes → Option (Writer S)
  unfolding write_data
  write_packet p ts bytes =
      write_data p (write p.out (record_header p.snaplen ts bytes))
        (take (captured p.snaplen bytes) bytes)

pub record Reader : Type 0 where
  pub rest : Bytes
  pub link_type : ℕ
  pub snaplen : ℕ
  pub little : Bool

pub record Packet : Type 0 where
  pub time : Time
  pub bytes : Bytes

-- `io.ReadFull` for n bytes: those and what follows, or an error where there are fewer.
abbrev pub read_full : ℕ → Bytes → Option (Bytes × Bytes)
read_full n s = if leb n (length s) then some (take n s, drop n s) else none

open_file : Bytes → Bytes → Option Reader
open_file hdr rest =
    let reader : (Bool → Reader) = λ little. record {
      rest = rest;
      link_type = u32 little (drop 20 hdr);
      snaplen = u32 little (drop 16 hdr);
      little = little;
    } in
    if u32 true hdr == magic
    then some (reader true)
    else if u32 true hdr == 0xd4c3b2a1
    then some (reader false)
    else none

open_first : Option (Bytes × Bytes) → Option Reader
unfolding open_file
open_first none = none
open_first (some (hdr, rest)) = open_file hdr rest

-- `NewReader`
unfoldable pub new_reader : Bytes → Option Reader
unfolding open_first
new_reader s = open_first (read_full 24 s)

next_data : Reader → Bytes → Option (Bytes × Bytes) → Option (Packet × Reader)
next_data rd hdr none = none
next_data rd hdr (some (bytes, rest)) = some (
  record {
    time = record { sec = u32 rd.little hdr; nsec = u32 rd.little (drop 4 hdr) * 1000 };
    bytes = bytes;
  },
  record rd { rest = rest },
)

next_packet : Reader → Option (Bytes × Bytes) → Option (Packet × Reader)
unfolding next_data
next_packet rd none = none
next_packet rd (some (hdr, rest)) = next_data rd hdr (read_full (u32 rd.little (drop 8 hdr)) rest)

-- `Next`
unfoldable pub next : Reader → Option (Packet × Reader)
unfolding next_packet
next rd = next_packet rd (read_full 16 rd.rest)
