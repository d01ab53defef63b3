-- ===== src/Pcap/Saved.antt =====
-- A savefile that was written is read back, packet by packet.
use gsnet.Common.{
  ℕ, zero, suc, ◌*◌, ◌/◌, ◌^◌, ◌<◌, ◌≤◌, ◌≡◌, refl, sym, ap, ◌∙◌, List, [], ◌∷◌, ◌++◌, map, true,
  Option, none, some, take, drop, length, arith, length-append, length-take, take-append,
  drop-append, Option-cases, inl, inr,
}
use mathlib.Core.List.{append_assoc, append-nil}
use gsnet.Pcap.{
  Bytes, Sink, put_u32, u32, Writer, file_header, captured, Time, record_header, new_writer,
  written, write_data, write_packet, Reader, Packet, read_full, open_file, new_reader, next_data,
  next, next_packet, open_first,
}

u32-put_u32 : (n : ℕ) (rest : Bytes) → n < 2 ^ 32 → u32 true (put_u32 n ++ rest) ≡ n
u32-put_u32 n rest h = omega arith

-- `contents` is what a writer has been given so far.
abbrev pub Appends : {S : Type 0} → Sink S → (S → Bytes) → Type 0
Appends {S} write contents =
    (s : S) (b : Bytes) (t : S) → write s b ≡ some t → contents t ≡ contents s ++ b

-- What a reader sees of a packet: microseconds, and no more bytes than the limit.
abbrev pub saved : ℕ → Time × Bytes → Packet
saved snaplen (ts, bytes) = record {
  time = record { sec = ts.sec; nsec = ts.nsec / 1000 * 1000 };
  bytes = take (captured snaplen bytes) bytes;
}

pub record Fits (snaplen : ℕ) (ts : Time) (bytes : Bytes) : Type 0 where
  pub sec_fits : ts.sec < 2 ^ 32
  pub nsec_fits : ts.nsec < 1000000000
  pub length_fits : length bytes < 2 ^ 32

abbrev packet_bytes : ℕ → Time → Bytes → Bytes
packet_bytes snaplen ts bytes =
    record_header snaplen ts bytes ++ take (captured snaplen bytes) bytes

captured_le :
    (snaplen : ℕ) (bytes : Bytes) → length bytes < 2 ^ 32 → captured snaplen bytes ≤ length bytes
captured_le snaplen bytes h = ground arith

read_full_front : (n : ℕ) (a b : Bytes) → length a ≡ n → read_full n (a ++ b) ≡ some (a, b)
read_full_front n a b h =
    let front : (take n (a ++ b) ≡ a) = ap (λ m. take m (a ++ b)) (sym h) ∙ take-append a b in
    let back : (drop n (a ++ b) ≡ b) = ap (λ m. drop m (a ++ b)) (sym h) ∙ drop-append a b in
    ground (arith, front, back, length-append a b)

abbrev stamped : ℕ → ℕ → Bytes → Reader → Option (Packet × Reader)
stamped sec usec bytes rd =
    some (record { time = record { sec = sec; nsec = usec * 1000 }; bytes = bytes }, rd)

next_data-saved :
    (rd : Reader) (snaplen : ℕ) (ts : Time) (bytes more : Bytes)
    → Fits snaplen ts bytes
    → rd.little ≡ true
    → next_data rd
        (record_header snaplen ts bytes)
        (some (take (captured snaplen bytes) bytes, more))
      ≡ some (saved snaplen (ts, bytes), record rd { rest = more })
unfolding next_data
next_data-saved rd snaplen ts bytes more h little =
    let kept = take (captured snaplen bytes) bytes in
    let hdr = record_header snaplen ts bytes in
    let sec : u32 true hdr ≡ ts.sec = omega arith in
    let usec : u32 true (drop 4 hdr) ≡ ts.nsec / 1000 = omega arith in
    ap (λ l. stamped (u32 l hdr) (u32 l (drop 4 hdr)) kept (record rd { rest = more })) little
    ∙ ap (λ a. stamped a (u32 true (drop 4 hdr)) kept (record rd { rest = more })) sec
    ∙ ap (λ b. stamped ts.sec b kept (record rd { rest = more })) usec

-- A record that was written is read back, and the reader then stands behind it.
next-packet_bytes :
    (rd : Reader) (snaplen : ℕ) (ts : Time) (bytes more : Bytes)
    → Fits snaplen ts bytes
    → rd.little ≡ true
    → rd.rest ≡ packet_bytes snaplen ts bytes ++ more
    → next rd ≡ some (saved snaplen (ts, bytes), record rd { rest = more })
unfolding next next_packet
next-packet_bytes rd snaplen ts bytes more h little r =
    let kept = take (captured snaplen bytes) bytes in
    let hdr = record_header snaplen ts bytes in
    let size : u32 rd.little (drop 8 hdr) ≡ captured snaplen bytes =
      ap (λ l. u32 l (drop 8 hdr)) little
      ∙ omega (arith, captured_le snaplen bytes h.length_fits, h.length_fits) in
    let header : read_full 16 rd.rest ≡ some (hdr, kept ++ more) =
      ap (read_full 16) r ∙ read_full_front 16 hdr (kept ++ more) refl in
    let body : read_full (u32 rd.little (drop 8 hdr)) (kept ++ more) ≡ some (kept, more) =
      read_full_front (u32 rd.little (drop 8 hdr)) kept more (
        length-take (captured snaplen bytes) bytes (captured_le snaplen bytes h.length_fits)
        ∙ sym size) in
    ap (next_packet rd) header
    ∙ ap (next_data rd hdr) body
    ∙ next_data-saved rd snaplen ts bytes more h little

abbrev opened : Bytes → ℕ → ℕ → Option Reader
opened rest link_type snaplen =
    some (record { rest = rest; link_type = link_type; snaplen = snaplen; little = true })

new_reader-file_header :
    (link_type snaplen : ℕ) (more : Bytes)
    → link_type < 2 ^ 32
    → snaplen < 2 ^ 32
    → new_reader (file_header link_type snaplen ++ more)
      ≡ some (record { rest = more; link_type = link_type; snaplen = snaplen; little = true })
unfolding new_reader open_first open_file
new_reader-file_header link_type snaplen more h k =
    let hdr = file_header link_type snaplen in
    let limit : u32 true (drop 16 hdr) ≡ snaplen = omega arith in
    let kind : u32 true (drop 20 hdr) ≡ link_type = omega arith in
    ap open_first (read_full_front 24 hdr more refl)
    ∙ ap (opened more (u32 true (drop 20 hdr))) limit
    ∙ ap (λ n. opened more n snaplen) kind

-- Reading as many packets as given, one after the other.
pub next_all : ℕ → Reader → Option (List Packet × Reader)
next_all zero rd = some ([], rd)
next_all (suc n) rd = elim (next rd) [
  | none ↦ none
  | some (pkt, later) ↦ elim (next_all n later) [
    | none ↦ none
    | some (pkts, last) ↦ some (pkt ∷ pkts, last)
  ]
]

abbrev pub AllFit : ℕ → List (Time × Bytes) → Type 0
AllFit snaplen [] = Unit
AllFit snaplen ((ts, bytes) ∷ ps) = Fits snaplen ts bytes × AllFit snaplen ps

all_bytes : ℕ → List (Time × Bytes) → Bytes
all_bytes snaplen [] = []
all_bytes snaplen ((ts, bytes) ∷ ps) = packet_bytes snaplen ts bytes ++ all_bytes snaplen ps

next_all-all_bytes :
    (ps : List (Time × Bytes)) (rd : Reader) (snaplen : ℕ)
    → AllFit snaplen ps
    → rd.little ≡ true
    → rd.rest ≡ all_bytes snaplen ps
    → next_all (length ps) rd ≡ some (map (saved snaplen) ps, record rd { rest = [] })
unfolding next_all all_bytes
next_all-all_bytes [] rd snaplen h little r = rw (sym r) refl
next_all-all_bytes ((ts, bytes) ∷ ps) rd snaplen h little r =
    let later = record rd { rest = all_bytes snaplen ps } in
    let first : next rd ≡ some (saved snaplen (ts, bytes), later) =
      next-packet_bytes rd snaplen ts bytes (all_bytes snaplen ps) h.0 little r in
    let others : next_all (length ps) later
        ≡ some (map (saved snaplen) ps, record rd { rest = [] }) =
      next_all-all_bytes ps later snaplen h.1 little refl in
    rw (first, next_all) (rw others refl)

module _ {S : Type 0} (write : Sink S) (contents : S → Bytes) where
  -- Writing packets one after the other.
  unfoldable pub write_all : Writer S → List (Time × Bytes) → Option (Writer S)
  write_all p [] = some p
  write_all p ((ts, bytes) ∷ ps) = elim (write_packet write p ts bytes) [
    | none ↦ none
    | some q ↦ write_all q ps
  ]

  written-out :
      (p q : Writer S) (o : Option S)
      → written write p o ≡ some q
      → (o ≡ some q.out) × (q.snaplen ≡ p.snaplen)
  unfolding written
  written-out p q none e = cc
  written-out p q (some s) e =
      let same : record p { out = s } ≡ q = cc e in
      (ap (λ r. some r.out) same, ap (λ r. r.snaplen) (sym same))

  write_data-Appends :
      (p q : Writer S) (hdr bytes : Bytes) (o : Option S)
      → Appends write contents
      → write p.out hdr ≡ o
      → write_data write p o bytes ≡ some q
      → (contents q.out ≡ contents p.out ++ (hdr ++ bytes)) × (q.snaplen ≡ p.snaplen)
  unfolding write_data
  write_data-Appends p q hdr bytes none appends e w = cc
  write_data-Appends p q hdr bytes (some s) appends e w =
      let (body, same) = written-out p q (write s bytes) w in
      (
        appends s bytes q.out body
            ∙ ap (λ c. c ++ bytes) (appends p.out hdr s e)
            ∙ append_assoc (contents p.out) hdr bytes,
        same,
      )

  write_packet-Appends :
      (p q : Writer S) (ts : Time) (bytes : Bytes)
      → Appends write contents
      → write_packet write p ts bytes ≡ some q
      → (contents q.out ≡ contents p.out ++ packet_bytes p.snaplen ts bytes)
        × (q.snaplen ≡ p.snaplen)
  unfolding write_packet
  write_packet-Appends p q ts bytes appends e =
      write_data-Appends p q (record_header p.snaplen ts bytes)
        (take (captured p.snaplen bytes) bytes) (write p.out (record_header p.snaplen ts bytes))
        appends refl e

  write_all-Appends :
      (ps : List (Time × Bytes)) (p q : Writer S)
      → Appends write contents
      → write_all p ps ≡ some q
      → contents q.out ≡ contents p.out ++ all_bytes p.snaplen ps
  unfolding write_all all_bytes
  write_all-Appends [] p q appends e =
      let same : p ≡ q = cc e in
      ap (λ r. contents r.out) (sym same) ∙ sym (append-nil (contents p.out))
  write_all-Appends ((ts, bytes) ∷ ps) p q appends e =
      elim (Option-cases (write_packet write p ts bytes)) [
        | inl failed ↦ cc (rw (failed, write_all) at e)
        | inr (r, done) ↦
            let (first, same) = write_packet-Appends p r ts bytes appends done in
            let later = write_all-Appends ps r q appends (rw (done, write_all) at e) in
            later
            ∙ ap (λ n. contents r.out ++ all_bytes n ps) same
            ∙ ap (λ c. c ++ all_bytes p.snaplen ps) first
            ∙ append_assoc (contents p.out) (packet_bytes p.snaplen ts bytes)
                (all_bytes p.snaplen ps)
      ]

  new_writer-Appends :
      (s : S) (link_type snaplen : ℕ) {p : Writer S}
      → Appends write contents
      → new_writer write s link_type snaplen ≡ some p
      → (contents p.out ≡ contents s ++ file_header link_type snaplen) × (p.snaplen ≡ snaplen)
  unfolding new_writer
  new_writer-Appends s link_type snaplen {p} appends e =
      elim (Option-cases (write s (file_header link_type snaplen))) [
        | inl failed ↦ cc
        | inr (t, done) ↦
            let same : record { out = t; link_type = link_type; snaplen = snaplen } ≡ p = cc in
            (
              ap (λ r. contents r.out) (sym same)
                  ∙ appends s (file_header link_type snaplen) t done,
              ap (λ r. r.snaplen) (sym same),
            )
      ]

  -- Where the writer appends what it is given and reports no error, the file that `NewWriter` and
  -- calls of `WritePacket` leave in an empty one is read back: the reader knows the limit and the link
  -- type, and `Next` gives each packet in turn, its bytes cut at the limit and its time in microseconds.
  -- Packets have less than 2^32 bytes, and times and the two numbers of the header fit their fields.
  pub saved_file_reads :
      (s : S) (link_type snaplen : ℕ) (p q : Writer S) (ps : List (Time × Bytes))
      → Appends write contents
      → contents s ≡ []
      → link_type < 2 ^ 32
      → snaplen < 2 ^ 32
      → AllFit snaplen ps
      → new_writer write s link_type snaplen ≡ some p
      → write_all p ps ≡ some q
      → (rd : Reader) × (new_reader (contents q.out) ≡ some rd)
        × (rd.link_type ≡ link_type)
        × (rd.snaplen ≡ snaplen)
        × (next_all (length ps) rd ≡ some (map (saved snaplen) ps, record rd { rest = [] }))
  saved_file_reads s link_type snaplen p q ps appends empty l n fit start run =
      let (header, same) = new_writer-Appends s link_type snaplen appends start in
      let hdr = file_header link_type snaplen in
      let more = all_bytes snaplen ps in
      let file : contents q.out ≡ hdr ++ more =
        write_all-Appends ps p q appends run
        ∙ ap (λ k. contents p.out ++ all_bytes k ps) same
        ∙ ap (λ c. c ++ more) (header ∙ ap (λ c. c ++ hdr) empty) in
      let rd : Reader = record {
        rest = more;
        link_type = link_type;
        snaplen = snaplen;
        little = true;
      } in
      (
        rd,
        ap new_reader file ∙ new_reader-file_header link_type snaplen more l n,
        refl,
        refl,
        next_all-all_bytes ps rd snaplen fit refl refl,
      )
