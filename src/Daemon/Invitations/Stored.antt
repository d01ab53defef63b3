-- ===== src/Daemon/Invitations/Stored.antt =====
-- What a join leaves in the file system.
use gsnet.Common.{
  ◌≡◌, ◌≢◌, Bool, true, false, refl, sym, ap, ◌∙◌, Option, none, some, Text, text_eq, if◌then◌else◌,
  Bool-cases, Option-cases, inl, inr,
}
use gsnet.Invite.File
use gsnet.Invite.File.{File, parse_file}
use gsnet.Daemon.Paths.{Paths, hosts_dir, host_file}
use gsnet.Daemon.Invitations.{
  Bytes, Files, Joined, joined, invitation_path, remove_or_keep, announced_key, written, with_dir,
  with_parsed, with_invitation, handle_invite_join,
}

module _ {S : Type 0} (fs : Files S) (p : Paths) where
  -- What is documented of the calls: a file that is written reads back and the others stay, a directory
  -- that is made changes no file, and a file that is removed is gone and the others stay.
  pub record IsStore : Type 0 where
    pub writes :
        (s t : S) (q r : Text) (b : Bytes)
        → fs.write_file s q b ≡ some t
        → fs.read_file t r ≡ (if text_eq q r then some b else fs.read_file s r)
    pub makes :
        (s t : S) (q r : Text) → fs.mkdir_all s q ≡ some t → fs.read_file t r ≡ fs.read_file s r
    pub removes :
        (s t : S) (q r : Text)
        → fs.remove s q ≡ some t
        → fs.read_file t r ≡ (if text_eq q r then none else fs.read_file s r)

  -- A file that is there can be removed.
  abbrev pub Removable : Text → Type 0
  Removable path =
      (t : S) (file : Bytes) → fs.read_file t path ≡ some file → fs.remove t path ≢ none

  -- What a join leaves: the host file and no invitation, and every other file.
  abbrev pub after_join : S → Text → Text → Bytes → Text → Option Bytes
  after_join s cookie name host_config r =
      if text_eq (invitation_path p cookie) r
      then none
      else if text_eq (host_file p name) r
      then some host_config
      else fs.read_file s r

  joined_file : (a b : Bytes) (k l : Option Bytes) → joined a k ≡ joined b l → b ≡ a
  joined_file a b k l h = cc h

  -- What is at a path after something has been written to one.
  still_there :
      (same : Bool) (new old : Bytes) (o : Option Bytes)
      → o ≡ (if same then some new else some old)
      → (kept : Bytes) × (o ≡ some kept)
  still_there true new old o h = (new, h)
  still_there false new old o h = (old, h)

  written_lem :
      (laws : IsStore) (path q : Text) (file host_config : Bytes) (s j : S) (o : Option S)
      (b : Bytes) (k : Option Bytes)
      → Removable path
      → fs.read_file s path ≡ some file
      → fs.write_file s q host_config ≡ o
      → written fs p path file host_config s o ≡ (j, joined b k)
      → (b ≡ file)
        × ((r : Text)
            → fs.read_file j r ≡ (
                if text_eq path r
                then none
                else if text_eq q r
                then some host_config
                else fs.read_file s r))
  unfolding written remove_or_keep
  written_lem laws path q file host_config s j none b k can there w h =
      cc (ap (λ (x : S × Joined). x.1) h)
  written_lem laws path q file host_config s j (some t) b k can there w h =
      elim (Option-cases (fs.remove t path)) [
        | inl bad ↦
            let (kept, still) =
              still_there (text_eq q path) host_config file (fs.read_file t path) (
                laws.writes s t q path host_config w
                ∙ ap (λ o. if text_eq q path then some host_config else o) there) in
            absurd (can t kept still bad)
        | inr (u, removed) ↦
            let h' : ◌≡◌ {A = S × Joined} (u, joined file (announced_key fs p host_config))
                (j, joined b k) =
              rw (removed, remove_or_keep) at h in
            let same : u ≡ j = ap (λ (x : S × Joined). x.0) h' in
            (
              joined_file file b _ k (ap (λ (x : S × Joined). x.1) h'),
              λ r.
                  ap (λ x. fs.read_file x r) (sym same)
                  ∙ laws.removes t u path r removed
                  ∙ ap (λ o. if text_eq path r then none else o)
                      (laws.writes s t q r host_config w),
            )
      ]

  parsed_lem :
      (laws : IsStore) (s j : S) (cookie name : Text) (file host_config b : Bytes)
      (k : Option Bytes) (f : File.Result File)
      → Removable (invitation_path p cookie)
      → fs.read_file s (invitation_path p cookie) ≡ some file
      → with_parsed fs p (invitation_path p cookie) name file host_config s f ≡ (j, joined b k)
      → (b ≡ file) × ((r : Text) → fs.read_file j r ≡ after_join s cookie name host_config r)
  unfolding with_parsed with_dir
  parsed_lem laws s j cookie name file host_config b k (File.err e) can there h =
      cc (ap (λ (x : S × Joined). x.1) h)
  parsed_lem laws s j cookie name file host_config b k (File.ok f) can there h =
      elim (Bool-cases (text_eq f.invitee.name name)) [
        | inr other ↦ cc (ap (λ (x : S × Joined). x.1) (rw other at h))
        | inl same ↦ elim (Option-cases (fs.mkdir_all s (hosts_dir p))) [
          | inl bad ↦ cc (ap (λ (x : S × Joined). x.1) (rw (same, bad) at h))
          | inr (t, made) ↦
              let (kept, all) =
                written_lem laws (invitation_path p cookie) (host_file p name) file host_config t j
                  _ b k can (laws.makes s t (hosts_dir p) (invitation_path p cookie) made ∙ there)
                  refl (rw (same, made) at h) in
              (
                kept,
                λ r.
                    all r
                    ∙ ap
                        (λ o.
                          if text_eq (invitation_path p cookie) r
                          then none
                          else if text_eq (host_file p name) r
                          then some host_config
                          else o)
                        (laws.makes s t (hosts_dir p) r made),
              )
        ]
      ]

  -- A join without an error, where removing the invitation is possible, gives the invitation's content.
  -- The host file holds what the invitee sent, the invitation is gone, and every other file is as it was.
  pub handle_invite_join_lem :
      (laws : IsStore) (s j : S) (cookie name : Text) (host_config b : Bytes) (k : Option Bytes)
      → Removable (invitation_path p cookie)
      → handle_invite_join fs p s cookie name host_config ≡ (j, joined b k)
      → (fs.read_file s (invitation_path p cookie) ≡ some b)
        × ((r : Text) → fs.read_file j r ≡ after_join s cookie name host_config r)
  unfolding handle_invite_join with_invitation
  handle_invite_join_lem laws s j cookie name host_config b k can h =
      elim (Option-cases (fs.read_file s (invitation_path p cookie))) [
        | inl bad ↦ cc (ap (λ (x : S × Joined). x.1) (rw bad at h))
        | inr (file, there) ↦
            let (same, all) =
              parsed_lem laws s j cookie name file host_config b k (parse_file (fs.text file)) can
                there (rw there at h) in
            (there ∙ ap some (sym same), all)
      ]
