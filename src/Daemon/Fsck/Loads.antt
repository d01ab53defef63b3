-- ===== src/Daemon/Fsck/Loads.antt =====
-- A tree in which `Fsck` finds no error.
use gsnet.Common.{
  ◌≡◌, refl, ap, ◌∙◌, List, [], ◌∷◌, ◌++◌, Bool, true, false, Option, none, some, Text, text_eq,
  codes, if◌then◌else◌, all, arith, Bool-cases, Option-cases, inl, inr,
}
use std.Path.{subst}
use gsnet.Strings.Space.{trim_space}
use gsnet.Config.{Entry, get_first, get_all}
use gsnet.Config.Directory.{
  Disk, Opened, missing, unreadable, contents, Loading, loaded, failed, load_directory,
}
use gsnet.Strings.Fold.{to_lower}
use gsnet.DataPlane.{switch, hub, router}
use gsnet.Daemon.Paths.{Paths, conf_file, ed25519_private, wg_private}
use gsnet.Daemon.Loaded.{
  Parsers, Outcome, error, done, Failure, no_config, name_required, ed_key_unread, ed_key_bad,
  wg_key_unread, wg_key_bad, unknown_mode, bad_inner, bad_underlay, bad_subnet, and_then, or_error,
  loading, contents_of, mode_of, address_of, subnets_of, parse_addr_or_prefix, read_settings,
  load_settings,
}
use gsnet.Daemon.Fsck
use gsnet.Daemon.Fsck.{
  Level, warning, Finding, Stat, Inspector, name_check, parse_check, stat_check, loose,
  subnet_checks, wg_of, check_private_key, entry_checks, conf_check, fsck,
}

-- The finding is no error.
abbrev pub mild : Finding → Bool
mild f = elim f.level [ warning ↦ true | Fsck.error ↦ false ]

-- The settings that `Fsck` does not look at.
abbrev pub IsUnseen : Failure → Type 0
IsUnseen unknown_mode = Unit
IsUnseen (bad_inner v) = Unit
IsUnseen (bad_underlay v) = Unit
IsUnseen (no_config e) = ⊥
IsUnseen name_required = ⊥
IsUnseen ed_key_unread = ⊥
IsUnseen ed_key_bad = ⊥
IsUnseen wg_key_unread = ⊥
IsUnseen wg_key_bad = ⊥
IsUnseen (bad_subnet s) = ⊥

-- What is still possible: the run succeeds, or it stops at one of those.
abbrev pub Loads : {A : Type 0} → Outcome A → Type 0
Loads (done l) = Unit
Loads (error e) = IsUnseen e

and_then-Loads :
    {A : Type 0} {B : Type 0} (o : Outcome A) (next : A → Outcome B)
    → Loads o
    → ((a : A) → Loads (next a))
    → Loads (and_then o next)
unfolding and_then
and_then-Loads (done a) next h f = f a
and_then-Loads (error e) next h f = h

done-Loads :
    {A : Type 0} {B : Type 0} (o : Outcome A) (a : A) (next : A → Outcome B)
    → o ≡ done a
    → Loads (next a)
    → Loads (and_then o next)
unfolding and_then
done-Loads (done b) a next h f = subst (λ x. Loads (next x)) (cc h) f
done-Loads (error e) a next h f = cc h

if-Loads :
    {A : Type 0} (b : Bool) (a : A) (o : Outcome A) → Loads o → Loads (if b then done a else o)
if-Loads true a o h = tt
if-Loads false a o h = h

mode_of-Loads : (o : Option Text) → Loads (mode_of o)
unfolding mode_of
mode_of-Loads none = tt
mode_of-Loads (some v) =
    let m = to_lower v in
    let last = if-Loads (text_eq m (codes "router")) router (error unknown_mode) tt in
    if-Loads (text_eq m (codes "switch")) switch _
      (if-Loads (text_eq m []) switch _ (if-Loads (text_eq m (codes "hub")) hub _ last))

all-split :
    (es fs : List Finding)
    → all mild (es ++ fs) ≡ true
    → (all mild es ≡ true) × (all mild fs ≡ true)
all-split [] fs h = (refl, h)
all-split (e ∷ es) fs h = ground (arith, all-split es fs)

parsed_key :
    {K : Type 0} (path : Text) (parse : Text → Option K) (o : Opened) (e : Failure)
    → all mild (parse_check path parse o) ≡ true
    → (s : Text) × (contents_of e o ≡ done s) × ((k : K) × (parse s ≡ some k))
unfolding parse_check contents_of
parsed_key path parse missing e h = cc h
parsed_key path parse unreadable e h = cc h
parsed_key path parse (contents s) e h = elim (Option-cases (parse s)) [
  | inl bad ↦ cc (rw (bad, all, parse_check) at h)
  | inr (k, good) ↦ (s, refl, (k, good))
]

checked_key :
    {K : Type 0} (path : Text) (parse : Text → Option K) (o : Opened) (st : Option Stat)
    (e : Failure)
    → all mild (stat_check path parse o st) ≡ true
    → (s : Text) × (contents_of e o ≡ done s) × ((k : K) × (parse s ≡ some k))
unfolding stat_check
checked_key path parse o none e h = cc h
checked_key path parse o (some st) e h =
    parsed_key path parse o e (all-split (loose path st.perm) (parse_check path parse o) h).1

checked_name :
    (path : Text) (o : Option Text) (e : Failure)
    → all mild (name_check path o) ≡ true
    → (name : Text) × (or_error e o ≡ done name)
unfolding name_check or_error
checked_name path none e h = cc h
checked_name path (some name) e h = (name, refl)

module _ {N : Type 0} (ps : Parsers N) (disk : Disk) (os : Inspector) (p : Paths) where
  checked_subnets :
      (ss : List Text)
      → all mild (subnet_checks ps disk os p ss) ≡ true
      → (ns : List N) × (subnets_of ps ss ≡ done ns)
  unfolding subnet_checks subnets_of and_then
  checked_subnets [] h = ([], refl)
  checked_subnets (s ∷ ss) h = elim (Option-cases (ps.parse_subnet s)) [
    | inl bad ↦ cc (rw (bad, subnet_checks) at h)
    | inr (n, good) ↦
        let (ns, rest) = checked_subnets ss (rw (good, subnet_checks) at h) in
        (n ∷ ns, rw (good, subnets_of, rest, and_then) refl)
  ]

  address_of-Loads :
      (f : Text → Failure) (o : Option Text)
      → ((v : Text) → IsUnseen (f v))
      → Loads (address_of ps f o)
  unfolding address_of
  address_of-Loads f none h = tt
  address_of-Loads f (some v) h = elim (Option-cases (parse_addr_or_prefix ps v)) [
    | inl bad ↦ rw (bad, Loads, address_of) (h v)
    | inr (a, good) ↦ rw (good, Loads, address_of) tt
  ]

  -- The checks of the entries, taken apart.
  entries-Loads :
      (es : List Entry)
      → all mild (entry_checks ps disk os p (loaded es)) ≡ true
      → Loads (
          and_then
            (or_error name_required (get_first es (codes "Name")))
            (λ name. read_settings ps disk p es name))
  unfolding entry_checks check_private_key read_settings
  entries-Loads es h =
      let (h1, r1) = all-split (name_check (conf_file p) (get_first es (codes "Name"))) _ h in
      let (h2, r2) = all-split (subnet_checks ps disk os p (get_all es (codes "Subnet"))) _ r1 in
      let (h3, r3) =
        all-split (check_private_key ps disk os p (ed25519_private p) ps.ed_private) _ r2 in
      let (h4, r4) =
        all-split (check_private_key ps disk os p (wg_private p) (wg_of ps disk os p)) _ r3 in
      let (name, named) =
        checked_name (conf_file p) (get_first es (codes "Name")) name_required h1 in
      let (pem, ed_read, (ed, ed_good)) =
        checked_key (ed25519_private p) ps.ed_private (disk.open_file (ed25519_private p))
          (os.stat (ed25519_private p)) ed_key_unread h3 in
      let (key, wg_read, (wg, wg_good)) =
        checked_key (wg_private p) (wg_of ps disk os p) (disk.open_file (wg_private p))
          (os.stat (wg_private p)) wg_key_unread h4 in
      let (ns, subnets) = checked_subnets (get_all es (codes "Subnet")) h2 in
      done-Loads (or_error name_required (get_first es (codes "Name"))) name _ named (
        done-Loads (contents_of ed_key_unread (disk.open_file (ed25519_private p))) pem _ ed_read (
          done-Loads (or_error ed_key_bad (ps.ed_private pem)) ed _
            (ap (or_error ed_key_bad) ed_good ∙ unfold or_error in refl)
            (done-Loads (contents_of wg_key_unread (disk.open_file (wg_private p))) key _ wg_read (
              done-Loads (or_error wg_key_bad (ps.wg_key (trim_space key))) wg _
                (ap (or_error wg_key_bad) wg_good ∙ unfold or_error in refl)
                (and_then-Loads (mode_of (get_first es (codes "Mode"))) _
                  (mode_of-Loads (get_first es (codes "Mode")))
                  (λ mode.
                    and_then-Loads (address_of ps bad_inner (get_first es (codes "InnerAddress"))) _
                      (address_of-Loads bad_inner _ (λ v. tt))
                      (λ inner.
                        and_then-Loads
                          (address_of ps bad_underlay (get_first es (codes "UnderlayAddress"))) _
                          (address_of-Loads bad_underlay _ (λ v. tt))
                          (λ underlay.
                            done-Loads (subnets_of ps (get_all es (codes "Subnet"))) ns _ subnets
                              tt))))))))

  loading-Loads :
      (o : Loading (List Entry))
      → all mild (entry_checks ps disk os p o) ≡ true
      → Loads (
          and_then (loading o) (λ es.
            and_then
              (or_error name_required (get_first es (codes "Name")))
              (λ name. read_settings ps disk p es name)))
  loading-Loads (failed e) h = unfold entry_checks in cc h
  loading-Loads (loaded es) h = unfold loading and_then in entries-Loads es h

  conf_check-Loads :
      (st : Option Stat)
      → all mild (conf_check ps disk os p st) ≡ true
      → Loads (load_settings ps disk p)
  unfolding conf_check load_settings
  conf_check-Loads none h = cc h
  conf_check-Loads (some st) h = elim (Bool-cases st.is_dir) [
    | inl yes_dir ↦ cc (rw (yes_dir, all, conf_check) at h)
    | inr file ↦ loading-Loads (load_directory disk (conf_file p)) (rw (file, conf_check) at h)
  ]

  -- Where `Fsck` finds no error, `load` either succeeds or stops at one of the three settings that `Fsck`
  -- does not look at: Mode, InnerAddress and UnderlayAddress. The tree is the same for both.
  pub fsck-Loads : all mild (fsck ps disk os p) ≡ true → Loads (load_settings ps disk p)
  unfolding fsck
  fsck-Loads h = conf_check-Loads (os.stat (conf_file p)) h
