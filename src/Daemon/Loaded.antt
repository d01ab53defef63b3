-- ===== src/Daemon/Loaded.antt =====
-- `load`: the settings that the daemon takes from its configuration. Keys, addresses and subnets are read
-- by parameters; `none` stands for an error, or for the zero value of a prefix.
pub mod Checked
use gsnet.Common.{
  ℕ, ◌+◌, ◌-◌, ◌*◌, ◌%◌, ◌^◌, List, [], ◌∷◌, ◌++◌, ◌&&◌, not, Bool, true, false, Option, none, some,
  Text, text_eq, codes, if◌then◌else◌,
}
use gsnet.Common.Int.{ℤ, pos, negsuc, is_nonpos, int_eq}
use gsnet.Strings.Space.{trim_space}
use gsnet.Strings.Fold.{to_lower}
use gsnet.Strings.Decimal.{atoi}
use gsnet.Config.{Entry, get_first, get_all}
use gsnet.Config.Directory.{
  Disk, Opened, missing, unreadable, contents, Loading, loaded, failed, LoadError, load_directory,
}
use gsnet.DataPlane.{Bytes, Prefix, Mode, switch, hub, router}
use gsnet.Daemon.Paths.{Paths, conf_file, ed25519_private, wg_private}

-- The parsers of the keys, of netip and of package subnet. N is the type of subnets.
pub record Parsers (N : Type 0) : Type 0 where
  pub ed_private : Text → Option Bytes
  pub wg_key : Text → Option Bytes
  pub parse_prefix : Text → Option Prefix
  -- `ParseAddr`, and the prefix of all its bits.
  pub parse_addr : Text → Option Prefix
  pub parse_subnet : Text → Option N

-- `loaded`
pub record Settings (N : Type 0) : Type 0 where
  pub node_name : Text
  pub conf : List Entry
  pub ed_priv : Bytes
  pub wg_priv : Bytes
  pub mode : Mode
  pub wg_interface : Text
  pub vxlan_iface : Text
  pub wg_listen_port : ℤ
  pub vxlan_port : ℕ
  pub vxlan_id : ℕ
  pub mtu : ℤ
  pub inner_addr : Option Prefix
  pub underlay_addr : Option Prefix
  pub subnets : List N

pub data Failure : Type 0 where
  no_config : LoadError → Failure
  name_required ed_key_unread ed_key_bad wg_key_unread wg_key_bad unknown_mode : Failure
  bad_inner bad_underlay bad_subnet : Text → Failure

pub data Outcome (A : Type 0) : Type 0 where
  error : Failure → Outcome A
  done : A → Outcome A

-- `if err != nil { return err }`, and then the rest.
unfoldable pub and_then : {A : Type 0} {B : Type 0} → Outcome A → (A → Outcome B) → Outcome B
and_then (error e) next = error e
and_then (done a) next = next a

unfoldable pub or_error : {A : Type 0} → Failure → Option A → Outcome A
or_error e none = error e
or_error e (some a) = done a

unfoldable pub loading : Loading (List Entry) → Outcome (List Entry)
loading (failed e) = error (no_config e)
loading (loaded es) = done es

unfoldable pub contents_of : Failure → Opened → Outcome Text
contents_of e missing = error e
contents_of e unreadable = error e
contents_of e (contents s) = done s

-- The `switch` on the mode.
unfoldable pub mode_of : Option Text → Outcome Mode
unfolding to_lower
mode_of none = done switch
mode_of (some v) =
    let m = to_lower v in
    if text_eq m (codes "switch")
    then done switch
    else if text_eq m []
    then done switch
    else if text_eq m (codes "hub")
    then done hub
    else if text_eq m (codes "router")
    then done router
    else error unknown_mode

-- `firstNonEmpty` with two keys and a default.
unfoldable pub first_non_empty : List Entry → List Text → Text → Text
unfolding get_first
first_non_empty es [] default = default
first_non_empty es (k ∷ ks) default =
    let rest = first_non_empty es ks default in
    elim (get_first es k) [ none ↦ rest | some v ↦ if text_eq v [] then rest else v ]

-- `strconv.Atoi`, where the key is there.
unfoldable pub number : List Entry → Text → Option ℤ
unfolding atoi get_first
number es k = elim (get_first es k) [ none ↦ none | some v ↦ atoi v ]

-- `uint16(p)` and `uint32(p)`: the remainder modulo 2 ^ w.
unfoldable pub wrap : ℕ → ℤ → ℕ
wrap w (pos n) = n % 2 ^ w
wrap w (negsuc n) = 2 ^ w - 1 - n % 2 ^ w

unfoldable pub listen_port : Option ℤ → ℤ
listen_port none = pos 51820
listen_port (some p) = if int_eq p (pos 0) then pos 51820 else p

unfoldable pub wrapped_or : ℕ → ℕ → Option ℤ → ℕ
unfolding wrap
wrapped_or w default none = default
wrapped_or w default (some p) = wrap w p

unfoldable pub mtu_of : Option ℤ → ℤ
mtu_of none = pos 1420
mtu_of (some p) = if is_nonpos p then pos 1420 else p

module _ {N : Type 0} (ps : Parsers N) where
  -- `parseAddrOrPrefix`
  unfoldable pub parse_addr_or_prefix : Text → Option Prefix
  parse_addr_or_prefix v = elim (ps.parse_prefix v) [ none ↦ ps.parse_addr v | some p ↦ some p ]

  -- `addrFromHostEntry`
  unfoldable pub addr_from_host_entry : List Entry → Text → Option Bytes
  unfolding parse_addr_or_prefix get_first
  addr_from_host_entry es k = elim (get_first es k) [
    | none ↦ none
    | some v ↦ elim (parse_addr_or_prefix v) [ none ↦ none | some p ↦ some p.addr ]
  ]

  unfoldable pub address_of : (Text → Failure) → Option Text → Outcome (Option Prefix)
  unfolding parse_addr_or_prefix
  address_of e none = done none
  address_of e (some v) = elim (parse_addr_or_prefix v) [
    | none ↦ error (e v)
    | some p ↦ done (some p)
  ]

  unfoldable pub subnets_of : List Text → Outcome (List N)
  unfolding and_then
  subnets_of [] = done []
  subnets_of (s ∷ ss) = elim (ps.parse_subnet s) [
    | none ↦ error (bad_subnet s)
    | some n ↦ and_then (subnets_of ss) (λ ns. done (n ∷ ns))
  ]

  -- The fields that are read without an error.
  unfoldable pub settings :
      List Entry → Text → Bytes → Bytes → Mode → Option Prefix → Option Prefix → List N → Settings N
  unfolding first_non_empty number listen_port wrapped_or mtu_of
  settings es name ed wg mode inner underlay subnets = record {
    node_name = name;
    conf = es;
    ed_priv = ed;
    wg_priv = wg;
    mode = mode;
    wg_interface =
        first_non_empty es (codes "WGInterface" ∷ codes "Interface" ∷ []) (codes "wg-" ++ name);
    vxlan_iface = first_non_empty es (codes "VXLANInterface" ∷ codes "VXLAN" ∷ []) name;
    wg_listen_port = listen_port (number es (codes "Port"));
    vxlan_port = wrapped_or 16 4789 (number es (codes "VXLANPort"));
    vxlan_id = wrapped_or 32 42 (number es (codes "VXLANID"));
    mtu = mtu_of (number es (codes "MTU"));
    inner_addr = inner;
    underlay_addr = underlay;
    subnets = subnets;
  }

  -- From the private keys on.
  unfoldable pub read_settings : Disk → Paths → List Entry → Text → Outcome (Settings N)
  unfolding and_then or_error contents_of mode_of address_of subnets_of settings trim_space
      ed25519_private wg_private
  read_settings disk p es name =
      and_then (contents_of ed_key_unread (disk.open_file (ed25519_private p))) (λ pem.
        and_then (or_error ed_key_bad (ps.ed_private pem)) (λ ed.
          and_then (contents_of wg_key_unread (disk.open_file (wg_private p))) (λ key.
            and_then (or_error wg_key_bad (ps.wg_key (trim_space key))) (λ wg.
              and_then (mode_of (get_first es (codes "Mode"))) (λ mode.
                and_then (address_of bad_inner (get_first es (codes "InnerAddress"))) (λ inner.
                  and_then (address_of bad_underlay (get_first es (codes "UnderlayAddress")))
                    (λ underlay.
                      and_then (subnets_of (get_all es (codes "Subnet"))) (λ subnets.
                        done (settings es name ed wg mode inner underlay subnets)))))))))

  unfoldable pub load_settings : Disk → Paths → Outcome (Settings N)
  unfolding and_then or_error loading read_settings load_directory conf_file
  load_settings disk p = and_then (loading (load_directory disk (conf_file p))) (λ es.
      and_then (or_error name_required (get_first es (codes "Name")))
        (λ name. read_settings disk p es name))

  unfoldable pub keep : Settings N → Outcome (Settings N) → Settings N × Option Failure
  keep old (error e) = (old, some e)
  keep old (done l) = (l, none)

  -- `load`: the settings after it, and its error.
  unfoldable pub load : Settings N → Disk → Paths → Settings N × Option Failure
  unfolding keep load_settings
  load old disk p = keep old (load_settings disk p)
