-- ===== src/Daemon/Loaded/Checked.antt =====
-- What `load` guarantees of the settings.
use gsnet.Common.{
  ◌<◌, ◌≡◌, ◌⊎◌, refl, List, true, false, Option, none, some, Text, codes, arith, is_some, inl, inr,
}
use gsnet.Common.Int.{ℤ, pos, negsuc, is_nonpos, int_eq}
use gsnet.Config.{Entry, get_first, get_all}
use gsnet.Config.Directory.{Disk, load_directory}
use gsnet.DataPlane.{Bytes, Prefix, Mode}
use gsnet.Daemon.Paths.{Paths, conf_file, ed25519_private, wg_private}
use gsnet.Strings.Space.{trim_space}
use gsnet.Daemon.Loaded.{
  Parsers, Settings, Outcome, error, done, and_then, or_error, loading, contents_of, mode_of,
  address_of, subnets_of, number, wrap, listen_port, wrapped_or, mtu_of, settings, read_settings,
  load_settings, keep, load, name_required, ed_key_unread, ed_key_bad, wg_key_unread, wg_key_bad,
  bad_inner, bad_underlay,
}

-- P holds of the result, if there is one.
abbrev pub All : {A : Type 0} → (A → Type 0) → Outcome A → Type 0
All P (error e) = Unit
All P (done a) = P a

and_then-All :
    {A : Type 0} {B : Type 0} (P : B → Type 0) (o : Outcome A) (next : A → Outcome B)
    → ((a : A) → All P (next a))
    → All P (and_then o next)
unfolding and_then
and_then-All P (error e) next h = tt
and_then-All P (done a) next h = h a

-- The settings that are numbers are in their ranges.
pub record IsBounded {N : Type 0} (l : Settings N) : Type 0 where
  pub port : l.vxlan_port < 65536
  pub id : l.vxlan_id < 4294967296
  pub mtu : is_nonpos l.mtu ≡ false
  pub listen : int_eq l.wg_listen_port (pos 0) ≡ false

wrap_16 : (o : Option ℤ) → wrapped_or 16 4789 o < 65536
unfolding wrapped_or wrap
wrap_16 none = ground arith
wrap_16 (some (pos n)) = ground arith
wrap_16 (some (negsuc n)) = ground arith

wrap_32 : (o : Option ℤ) → wrapped_or 32 42 o < 4294967296
unfolding wrapped_or wrap
wrap_32 none = ground arith
wrap_32 (some (pos n)) = ground arith
wrap_32 (some (negsuc n)) = ground arith

listen_set : (o : Option ℤ) → int_eq (listen_port o) (pos 0) ≡ false
unfolding listen_port
listen_set none = ground arith
listen_set (some (pos n)) = ground arith
listen_set (some (negsuc n)) = refl

mtu_pos : (o : Option ℤ) → is_nonpos (mtu_of o) ≡ false
unfolding mtu_of
mtu_pos none = ground arith
mtu_pos (some p) = ground arith

module _ {N : Type 0} (ps : Parsers N) where
  settings-IsBounded :
      (es : List Entry) (name : Text) (ed wg : Bytes) (mode : Mode) (inner underlay : Option Prefix)
      (subnets : List N)
      → IsBounded (settings ps es name ed wg mode inner underlay subnets)
  unfolding settings
  settings-IsBounded es name ed wg mode inner underlay subnets = record {
    port = wrap_16 (number es (codes "VXLANPort"));
    id = wrap_32 (number es (codes "VXLANID"));
    mtu = mtu_pos (number es (codes "MTU"));
    listen = listen_set (number es (codes "Port"));
  }

  read_settings-IsBounded :
      (disk : Disk) (p : Paths) (es : List Entry) (name : Text)
      → All IsBounded (read_settings ps disk p es name)
  unfolding read_settings
  read_settings-IsBounded disk p es name =
      and_then-All IsBounded (contents_of ed_key_unread (disk.open_file (ed25519_private p))) _
        (λ pem. and_then-All IsBounded (or_error ed_key_bad (ps.ed_private pem)) _ (λ ed.
          and_then-All IsBounded (contents_of wg_key_unread (disk.open_file (wg_private p))) _
            (λ key.
              and_then-All IsBounded (or_error wg_key_bad (ps.wg_key (trim_space key))) _ (λ wg.
                and_then-All IsBounded (mode_of (get_first es (codes "Mode"))) _ (λ mode.
                  and_then-All IsBounded
                    (address_of ps bad_inner (get_first es (codes "InnerAddress"))) _
                    (λ inner.
                      and_then-All IsBounded
                        (address_of ps bad_underlay (get_first es (codes "UnderlayAddress"))) _
                        (λ underlay.
                          and_then-All IsBounded (subnets_of ps (get_all es (codes "Subnet"))) _
                            (λ subnets.
                              settings-IsBounded es name ed wg mode inner underlay subnets))))))))

  pub load_settings-IsBounded : (disk : Disk) (p : Paths) → All IsBounded (load_settings ps disk p)
  unfolding load_settings
  load_settings-IsBounded disk p =
      and_then-All IsBounded (loading (load_directory disk (conf_file p))) _ (λ es.
        and_then-All IsBounded (or_error name_required (get_first es (codes "Name"))) _
          (λ name. read_settings-IsBounded disk p es name))

  kept :
      (old : Settings N) (o : Outcome (Settings N))
      → All IsBounded o
      → let (l, e) = keep ps old o in
        ((e ≡ none) × IsBounded l × (o ≡ done l)) ⊎ ((is_some e ≡ true) × (l ≡ old))
  unfolding keep
  kept old (error e) h = inr (refl, refl)
  kept old (done l) h = inl (refl, h, refl)

  -- A run of `load` without an error takes the settings of the configuration, and their numbers are in
  -- range: the VXLAN port fits 16 bits and the VXLAN id 32 bits, the MTU is positive and the listen port
  -- is not 0. After an error the settings are those from before.
  pub load-IsBounded :
      (old : Settings N) (disk : Disk) (p : Paths)
      → let (l, e) = load ps old disk p in
        ((e ≡ none) × IsBounded l × (load_settings ps disk p ≡ done l))
        ⊎ ((is_some e ≡ true) × (l ≡ old))
  unfolding load
  load-IsBounded old disk p = kept old (load_settings ps disk p) (load_settings-IsBounded disk p)
