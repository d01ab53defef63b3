-- ===== src/Sandbox/Dropped.antt =====
-- In which order a successful run gives its privileges up, and what it may still do.
use gsnet.Common.{
  ◌≡◌, ◌≢◌, refl, sym, ap, ◌∙◌, List, [], ◌∷◌, ◌++◌, not, true, Option, none, some, Text, text_eq,
  text_eq_iff, if◌then◌else◌, arith, Bool-cases, inl, inr,
}
use mathlib.Core.List.{append_assoc, append-nil}
use gsnet.Common.Int.{ℤ}
use gsnet.Strings.Decimal.{atoi}
use gsnet.Sandbox.{
  Level, off, normal, high, Options, Call, chdir, setgid, setuid, System, call, with_ids, found,
  setuid_to, leave_root, at_level, apply,
}
use gsnet.Sandbox.Rules.{and_then-eq-none, call_lem, Confined, apply_landlock_lem}

module _ (sys : System) (o : Options) where
  -- `Uid` and `Gid` of the user as numbers.
  pub record IsUser (uid gid : ℤ) : Type 0 where
    pub uid_text : Text
    pub gid_text : Text
    pub known : sys.user_ids o.user ≡ some (uid_text, gid_text)
    pub uid_read : atoi uid_text ≡ some uid
    pub gid_read : atoi gid_text ≡ some gid

  abbrev Left : List Call → List Call → Type 0
  Left cs ds = (uid gid : ℤ) × (ds ≡ cs ++ (setgid gid ∷ setuid uid ∷ [])) × IsUser uid gid

  with_ids_lem :
      (cs : List Call) (u g : Text) (uid gid : Option ℤ) {ds : List Call}
      → sys.user_ids o.user ≡ some (u, g)
      → atoi u ≡ uid
      → atoi g ≡ gid
      → with_ids sys cs uid gid ≡ (ds, none)
      → Left cs ds
  unfolding with_ids
  with_ids_lem cs u g none gid k a b h = cc h
  with_ids_lem cs u g (some uid) none k a b h = cc h
  with_ids_lem cs u g (some uid) (some gid) k a b h =
      let (c1, grouped, h1) = and_then-eq-none _ _ h in
      let e1 = call_lem sys o cs (setgid gid) grouped in
      let e2 = call_lem sys o c1 (setuid uid) h1 in
      (
        uid,
        gid,
        simp (e2, e1, append_assoc),
        record { uid_text = u; gid_text = g; known = k; uid_read = a; gid_read = b },
      )

  found_lem :
      (cs : List Call) (ids : Option (Text × Text)) {ds : List Call}
      → sys.user_ids o.user ≡ ids
      → found sys cs ids ≡ (ds, none)
      → Left cs ds
  unfolding found
  found_lem cs none k h = cc h
  found_lem cs (some (u, g)) k h = with_ids_lem cs u g (atoi u) (atoi g) k refl refl h

  -- `os.Chdir`, if there is a directory.
  abbrev pub moved : List Call
  moved = if not (text_eq o.conf_dir []) then chdir o.conf_dir ∷ [] else []

  moved_lem :
      (cs : List Call) {ds : List Call}
      → (if not (text_eq o.conf_dir []) then call sys cs (chdir o.conf_dir) else (cs, none))
        ≡ (ds, none)
      → ds ≡ cs ++ moved
  moved_lem cs {ds} h = elim (Bool-cases (not (text_eq o.conf_dir []))) [
    | inl e ↦ rw e (call_lem sys o cs (chdir o.conf_dir) (rw e at h))
    | inr e ↦ let same : cs ≡ ds = cc (rw e at h) in rw e (sym same ∙ sym (append-nil cs))
  ]

  leave_root_lem :
      (cs : List Call) {ds : List Call}
      → o.user ≢ []
      → leave_root sys o cs ≡ (ds, none)
      → (uid gid : ℤ) × (ds ≡ cs ++ (moved ++ (setgid gid ∷ setuid uid ∷ []))) × IsUser uid gid
  unfolding leave_root setuid_to
  leave_root_lem cs ne h =
      let (c1, changed, h1) = and_then-eq-none _ _ h in
      let named : not (text_eq o.user []) ≡ true = ground (arith, text_eq_iff o.user []) in
      let (uid, gid, whole, user) = found_lem c1 (sys.user_ids o.user) refl (rw named at h1) in
      (
        uid,
        gid,
        whole
            ∙ ap (λ (x : List Call). x ++ (setgid gid ∷ setuid uid ∷ [])) (moved_lem cs changed)
            ∙ append_assoc cs moved (setgid gid ∷ setuid uid ∷ []),
        user,
      )

  -- What a successful run does before it leaves the root.
  abbrev pub Before : Level → List Call → Type 0
  Before off cs = cs ≡ []
  Before normal cs = cs ≡ []
  Before high cs = Confined sys o cs

  at_level_lem :
      (l : Level) {cs : List Call}
      → l ≢ off
      → o.user ≢ []
      → at_level sys l o ≡ (cs, none)
      → (first : List Call) × (uid gid : ℤ) × (cs
          ≡ first ++ (moved ++ (setgid gid ∷ setuid uid ∷ [])))
        × Before l first
        × IsUser uid gid
  unfolding at_level
  at_level_lem off on ne h = absurd (on refl)
  at_level_lem normal on ne h =
      let (uid, gid, whole, user) = leave_root_lem [] ne h in ([], uid, gid, whole, refl, user)
  at_level_lem high on ne h =
      let (first, confined, h1) = and_then-eq-none _ _ h in
      let (uid, gid, whole, user) = leave_root_lem first ne h1 in
      (first, uid, gid, whole, apply_landlock_lem sys o confined, user)

  -- A run of `Apply` without an error, at a level that is not off and with a user, ends by setting the
  -- group and then the user to those of that user, behind changing into the configuration directory if
  -- there is one. At the level high it begins with Landlock: a ruleset, rules that only read the
  -- configuration directory and write below the listed paths, none with a right that the ruleset does not
  -- handle, and then the process is restricted.
  pub apply_drops :
      {cs : List Call}
      → o.level ≢ off
      → o.user ≢ []
      → apply sys o ≡ (cs, none)
      → (first : List Call) × (uid gid : ℤ) × (cs
          ≡ first ++ (moved ++ (setgid gid ∷ setuid uid ∷ [])))
        × Before o.level first
        × IsUser uid gid
  unfolding apply
  apply_drops on ne h = at_level_lem o.level on ne h
