-- ===== src/DataPlane/Linux/Fdb/Mac.antt =====
-- The MAC address that a public key gives.
use Prim.Native.Nat.{bit_and, bit_or}
use gsnet.Common.{
  ℕ, zero, suc, ◌/◌, ◌%◌, ◌<◌, ◌==◌, ◌≡◌, refl, ap, ◌∷◌, ◌&&◌, Bool, true, take, ltb, arith,
}
use gsnet.DataPlane.{Bytes}
use gsnet.DataPlane.Linux.{Kernel}
use gsnet.DataPlane.Linux.Fdb.{local_unicast, vxlan_mac}

every_below : ℕ → (ℕ → Bool) → Bool
every_below zero p = true
every_below (suc n) p = p n && every_below n p

every_below_sound : (n : ℕ) (p : ℕ → Bool) (x : ℕ) → every_below n p ≡ true → x < n → p x ≡ true
unfolding every_below
every_below_sound zero p x h lt = absurd (omega arith)
every_below_sound (suc n) p x h lt = ground (arith, every_below_sound n p x)

-- The two low bits become 10, and the others stay.
abbrev marked : ℕ → Bool
marked b = let c = bit_and (bit_or b 0x02) 0xfe in c % 4 == 2 && c / 4 == b / 4 && ltb c 256

table : every_below 256 marked ≡ true
unfolding every_below
table = refl

-- The MAC of a key is the first six bytes of its SHA-256 with the multicast bit of the first byte
-- cleared and the local bit set; the other six bits of that byte stay, and it is a byte.
pub vxlan_mac_local :
    {K : Type 0} (os : Kernel K) (key rest : Bytes) (b : ℕ)
    → os.sha256 key ≡ b ∷ rest
    → b < 256
    → (c : ℕ) × (vxlan_mac os key ≡ c ∷ take 5 rest) × (c % 4 ≡ 2) × (c / 4 ≡ b / 4) × (c < 256)
unfolding vxlan_mac local_unicast
vxlan_mac_local os key rest b h small =
    let good = every_below_sound 256 marked b table small in
    (
      bit_and (bit_or b 0x02) 0xfe,
      ap (λ s. local_unicast (take 6 s)) h,
      ground arith,
      ground arith,
      ground arith,
    )
