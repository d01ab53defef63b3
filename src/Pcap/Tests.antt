-- ===== src/Pcap/Tests.antt =====
-- A savefile of two packets, the first longer than the limit of four bytes.
use gsnet.Common.{ℕ, ◌≡◌, refl, List, [], ◌∷◌, ◌++◌, map, some, length, arith}
use gsnet.Pcap.{
  Bytes, Sink, Writer, file_header, record_header, Time, new_writer, write_packet, Reader,
  new_reader,
}
use gsnet.Pcap.Saved.{AllFit, next_all, saved, write_all, saved_file_reads}

abbrev append : Sink Bytes
append s b = some (s ++ b)

abbrev at_second : ℕ → Time
at_second n = record { sec = n; nsec = 1999 }

abbrev packets : List (Time × Bytes)
packets = (at_second 7, 1 ∷ 2 ∷ 3 ∷ 4 ∷ 5 ∷ []) ∷ (at_second 8, 9 ∷ []) ∷ []

abbrev empty_file : Writer Bytes
empty_file = record { out = file_header 1 4; link_type = 1; snaplen = 4 }

abbrev full_file : Writer Bytes
full_file = record empty_file {
  out =
      ((((file_header 1 4 ++ record_header 4 (at_second 7) (1 ∷ 2 ∷ 3 ∷ 4 ∷ 5 ∷ []))
            ++ 1 ∷ 2 ∷ 3 ∷ 4 ∷ [])
          ++ record_header 4 (at_second 8) (9 ∷ []))
        ++ 9 ∷ []);
}

starts : new_writer append [] 1 4 ≡ some empty_file
unfolding new_writer
starts = refl

runs : write_all append (λ s. s) empty_file packets ≡ some full_file
unfolding write_all write_packet
runs = refl

packets-AllFit : AllFit 4 packets
packets-AllFit = (
  record { sec_fits = omega arith; nsec_fits = omega arith; length_fits = omega arith },
  (record { sec_fits = omega arith; nsec_fits = omega arith; length_fits = omega arith }, tt),
)

some-same : {s t : Bytes} → some s ≡ some t → t ≡ s
some-same e = cc

saved_file_reads_example :
    (rd : Reader) × (new_reader full_file.out ≡ some rd)
    × (rd.link_type ≡ 1)
    × (rd.snaplen ≡ 4)
    × (next_all (length packets) rd ≡ some (map (saved 4) packets, record rd { rest = [] }))
saved_file_reads_example =
    saved_file_reads append (λ s. s) [] 1 4 empty_file full_file packets (λ s b t e. some-same e)
      refl (omega arith) (omega arith) packets-AllFit starts runs
