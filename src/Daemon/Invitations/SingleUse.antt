-- ===== src/Daemon/Invitations/SingleUse.antt =====
-- An invitation is good for one join.
use gsnet.Common.{
  ◌≡◌, List, [], ◌∷◌, Bool, true, false, refl, ◌∙◌, Option, none, some, Text, text_eq, text_eq_refl,
  if◌then◌else◌, Bool-cases, Option-cases, inl, inr,
}
use gsnet.Invite.File
use gsnet.Invite.File.{File, parse_file}
use gsnet.Daemon.Paths.{Paths, hosts_dir, host_file}
use gsnet.Daemon.Invitations.{
  Bytes, Files, unknown_invitation, joined, invitation_path, handle_invite_get, remove_or_keep,
  written, with_dir, with_parsed, with_invitation, handle_invite_join,
}
use gsnet.Daemon.Invitations.Stored.{IsStore, Removable, handle_invite_join_lem}

module _ {S : Type 0} (fs : Files S) (p : Paths) where
  -- A later call: a fetch, which changes nothing, or a join by a name with a configuration.
  pub data Call : Type 0 where
    get_call : Text → Call
    join_call : Text → Text → Bytes → Call

  unfoldable pub after_calls : S → List Call → S
  unfolding handle_invite_join
  after_calls s [] = s
  after_calls s (get_call cookie ∷ cs) = after_calls s cs
  after_calls s (join_call cookie name host_config ∷ cs) =
      after_calls (handle_invite_join fs p s cookie name host_config).0 cs

  -- No call writes its host file to this path.
  abbrev pub Elsewhere : Text → List Call → Type 0
  Elsewhere path [] = Unit
  Elsewhere path (get_call cookie ∷ cs) = Elsewhere path cs
  Elsewhere path (join_call cookie name host_config ∷ cs) =
      (text_eq (host_file p name) path ≡ false) × Elsewhere path cs

  removed_absent :
      (same : Bool) (o q : Option Bytes) → o ≡ none → q ≡ (if same then none else o) → q ≡ none
  removed_absent true o q h e = e
  removed_absent false o q h e = e ∙ h

  written_absent :
      (laws : IsStore fs p) (path q other : Text) (file host_config : Bytes) (s : S) (o : Option S)
      → text_eq q path ≡ false
      → fs.read_file s path ≡ none
      → fs.write_file s q host_config ≡ o
      → fs.read_file (written fs p other file host_config s o).0 path ≡ none
  unfolding written remove_or_keep
  written_absent laws path q other file host_config s none away h w = h
  written_absent laws path q other file host_config s (some t) away h w =
      let gone : fs.read_file t path ≡ none = laws.writes s t q path host_config w ∙ rw away h in
      elim (Option-cases (fs.remove t other)) [
        | inl e ↦ rw (e, remove_or_keep) gone
        | inr (u, e) ↦
            rw (e, remove_or_keep)
              (removed_absent (text_eq other path) (fs.read_file t path) (fs.read_file u path) gone
                (laws.removes t u other path e))
      ]

  parsed_absent :
      (laws : IsStore fs p) (s : S) (path other name : Text) (file host_config : Bytes)
      (f : File.Result File)
      → text_eq (host_file p name) path ≡ false
      → fs.read_file s path ≡ none
      → fs.read_file (with_parsed fs p other name file host_config s f).0 path ≡ none
  unfolding with_parsed with_dir
  parsed_absent laws s path other name file host_config (File.err e) away h = h
  parsed_absent laws s path other name file host_config (File.ok f) away h =
      elim (Bool-cases (text_eq f.invitee.name name)) [
        | inr differs ↦ rw differs h
        | inl same ↦ elim (Option-cases (fs.mkdir_all s (hosts_dir p))) [
          | inl bad ↦ rw (same, bad) h
          | inr (t, made) ↦
              rw (same, made)
                (written_absent laws path (host_file p name) other file host_config t _ away
                  (laws.makes s t (hosts_dir p) path made ∙ h) refl)
        ]
      ]

  join_absent :
      (laws : IsStore fs p) (s : S) (path cookie name : Text) (host_config : Bytes)
      → text_eq (host_file p name) path ≡ false
      → fs.read_file s path ≡ none
      → fs.read_file (handle_invite_join fs p s cookie name host_config).0 path ≡ none
  unfolding handle_invite_join with_invitation
  join_absent laws s path cookie name host_config away h =
      elim (Option-cases (fs.read_file s (invitation_path p cookie))) [
        | inl e ↦ rw e h
        | inr (file, e) ↦ rw e (
            parsed_absent laws s path (invitation_path p cookie) name file host_config
              (parse_file (fs.text file)) away h)
      ]

  after_calls_absent :
      (laws : IsStore fs p) (s : S) (path : Text) (cs : List Call)
      → Elsewhere path cs
      → fs.read_file s path ≡ none
      → fs.read_file (after_calls s cs) path ≡ none
  unfolding after_calls
  after_calls_absent laws s path [] away h = h
  after_calls_absent laws s path (get_call cookie ∷ cs) away h =
      after_calls_absent laws s path cs away h
  after_calls_absent laws s path (join_call cookie name host_config ∷ cs) away h =
      after_calls_absent laws (handle_invite_join fs p s cookie name host_config).0 path cs away.1
        (join_absent laws s path cookie name host_config away.0 h)

  -- After a join without an error the cookie is spent: whatever fetches and joins come in between, with
  -- whatever cookies, as long as none of them writes its host file to the path of the invitation, no later
  -- fetch and no later join with this cookie succeeds, whatever name and configuration it brings. The
  -- invitation can be removed while it is there.
  pub handle_invite_join_once :
      (laws : IsStore fs p) (s j : S) (cookie name later : Text) (host_config b more : Bytes)
      (k : Option Bytes) (calls : List Call)
      → Removable fs p (invitation_path p cookie)
      → handle_invite_join fs p s cookie name host_config ≡ (j, joined b k)
      → Elsewhere (invitation_path p cookie) calls
      → let t = after_calls j calls in
        (handle_invite_get fs p t cookie ≡ none)
        × (handle_invite_join fs p t cookie later more ≡ (t, unknown_invitation))
  unfolding handle_invite_get handle_invite_join with_invitation
  handle_invite_join_once laws s j cookie name later host_config b more k calls can h away =
      let (there, all) = handle_invite_join_lem fs p laws s j cookie name host_config b k can h in
      let spent : fs.read_file j (invitation_path p cookie) ≡ none =
        all (invitation_path p cookie) ∙ rw (text_eq_refl (invitation_path p cookie)) refl in
      let still = after_calls_absent laws j (invitation_path p cookie) calls away spent in
      (still, rw still refl)
