-- ===== src/Commands/Invitation/Vouched.antt =====
-- What has been checked when `cmdJoin` writes its first file.
use gsnet.Common.{
  List, ◌≡◌, ◌≢◌, refl, sym, ap, ◌∙◌, [], ◌∷◌, Bool, true, false, Option, none, some, Text, text_eq,
  text_eq_iff, codes,
}
use gsnet.Invite.Url
use gsnet.Invite.Url.{Url, parse_url}
use gsnet.Invite.Url.Secret.{parse_url-key_hash}
use gsnet.Invite.File
use gsnet.Invite.File.{File, Block, parse_file}
use gsnet.Invite.Exchange.{Bytes, Crypto, Ephemeral}
use gsnet.Transport.Client.{
  Refusal, Fetched, rejected, fetched, get_command_line, join_command_line,
}
use gsnet.Transport.Client.Checked.{IsVouched, round_trip-IsVouched}
use gsnet.Daemon.Paths.{Paths, host_file}
use gsnet.Commands.{Store, IsLawful, Ran}
use std.Path.{subst}
use gsnet.Commands.Invitation.{
  Checked, refused, passed, next, need, demand, of_fetched, of_file, of_url, first_host, MyKeys,
  Accepted, replied, address, with_file, accepted, final_paths, write_tree, join_with, cmd_join,
  Refused, no_keys, no_inviter_key, bad_inviter_key, keyhash_mismatch, get_refused, join_refused,
  key_text, parse_public, host_config,
}
use gsnet.Config.{get_first, render}
use gsnet.Commands.Invitation.Written.{Leaves, host_text, write_tree-Leaves}

next-eq-passed :
    {A B : Type 0} (m : Checked A) (k : A → Checked B) {b : B}
    → next m k ≡ passed b
    → (a : A) × (m ≡ passed a) × (k a ≡ passed b)
unfolding next
next-eq-passed (refused e) k h = cc h
next-eq-passed (passed a) k h = (a, refl, h)

of_url-eq-passed : (r : Url.Result) {u : Url} → of_url r ≡ passed u → r ≡ Url.ok u
unfolding of_url
of_url-eq-passed (Url.err e) h = cc h
of_url-eq-passed (Url.ok u) h = cc h

of_file-eq-passed : (r : File.Result File) {f : File} → of_file r ≡ passed f → r ≡ File.ok f
unfolding of_file
of_file-eq-passed (File.err e) h = cc h
of_file-eq-passed (File.ok f) h = cc h

demand-eq-passed : (e : Refused) (b : Bool) {x : Unit {0}} → demand e b ≡ passed x → b ≡ true
unfolding demand
demand-eq-passed e true h = refl
demand-eq-passed e false h = cc h

of_fetched-eq-passed :
    {A : Type 0} (f : Refusal → Refused) (r : Fetched A) {a : A}
    → of_fetched f r ≡ passed a
    → r ≡ fetched a
unfolding of_fetched
of_fetched-eq-passed f (rejected e) h = cc h
of_fetched-eq-passed f (fetched a) h = cc h

module _ (c : Crypto) (keys : MyKeys) (get_key join_key : Ephemeral)
    (talk : Text → Text → Option Text) where
  replied-IsVouched :
      (e : Ephemeral) (cookie hash : Text) (reply : Option Text) (body : Bytes)
      → hash ≢ []
      → replied c keys get_key join_key talk e cookie hash reply ≡ fetched body
      → IsVouched c e cookie hash body
  unfolding replied
  replied-IsVouched e cookie hash none body ne h = cc h
  replied-IsVouched e cookie hash (some reply) body ne h =
      round_trip-IsVouched c e cookie hash reply body ne h

  -- The first host block of the invitation is the inviter's, and the key in it has the hash of the URL.
  pub record IsInviter (u : Url) (file : File) (inviter : Block) (key : Bytes) : Type 0 where
    pub others : List Block
    pub first : file.hosts ≡ inviter ∷ others
    pub key_in_block : Text
    pub key_there :
        key_text (get_first inviter.other (codes "Ed25519PublicKey")) ≡ some key_in_block
    pub key_parsed : parse_public c keys get_key join_key talk key_in_block ≡ some key
    pub hashed : c.key_hash key ≡ u.key_hash

  -- What is written down: this file, its inviter, and the two keys that were generated for the new node,
  -- whose public halves are in its host file.
  pub record IsOwn (file : File) (a : Accepted) : Type 0 where
    pub same_file : a.file ≡ file
    pub ed25519 : keys.ed25519 ≡ some a.ed
    pub wireguard : keys.wireguard ≡ some a.wg
    pub host :
        a.my_host
        ≡ render (
            record { key = codes "Ed25519PublicKey"; value = keys.ed_public_text a.ed }
            ∷ record { key = codes "WGPublicKey"; value = keys.wg_public_text a.wg }
            ∷ [])

  first_host-eq-passed :
      (bs : List Block) (b : Block)
      → first_host bs ≡ passed b
      → (others : List Block) × (bs ≡ b ∷ others)
  unfolding first_host
  first_host-eq-passed [] b h = cc h
  first_host-eq-passed (x ∷ xs) b h =
      let same : x ≡ b = cc h in (xs, ap (λ (y : Block). y ∷ xs) same)

  need-eq-passed :
      {A : Type 0} (e : Refused) (o : Option A) {a : A} → need e o ≡ passed a → o ≡ some a
  unfolding need
  need-eq-passed e none h = cc h
  need-eq-passed e (some x) h = cc h

  with_file-IsInviter :
      (u : Url) (ed wg : Bytes) (file : File) (a : Accepted)
      → keys.ed25519 ≡ some ed
      → keys.wireguard ≡ some wg
      → with_file c keys get_key join_key talk u ed wg file ≡ passed a
      → IsInviter u file a.inviter a.inviter_key × IsOwn file a
  unfolding with_file
  with_file-IsInviter u ed wg file a made_ed made_wg h =
      let (inviter, h1, k1) = next-eq-passed (first_host file.hosts) _ h in
      let (s, h2, k2) =
        next-eq-passed
          (need no_inviter_key (key_text (get_first inviter.other (codes "Ed25519PublicKey")))) _
          k1 in
      let (key, h3, k3) =
        next-eq-passed (need bad_inviter_key (parse_public c keys get_key join_key talk s)) _ k2 in
      let (good, h4, k4) =
        next-eq-passed (demand keyhash_mismatch (text_eq (c.key_hash key) u.key_hash)) _ k3 in
      let mine = host_config c keys get_key join_key talk ed wg in
      let command = join_command_line c join_key u.cookie file.invitee.name (c.utf8 mine) in
      let (reply, h5, k5) =
        next-eq-passed
          (of_fetched join_refused (
            replied c keys get_key join_key talk join_key u.cookie u.key_hash
              (talk (address c keys get_key join_key talk u) command)))
          _ k4 in
      let (others, first) = first_host-eq-passed file.hosts inviter h1 in
      let built : Accepted = record {
        ed = ed;
        wg = wg;
        file = file;
        inviter = inviter;
        inviter_key = key;
        my_host = mine;
      } in
      let same : built ≡ a = cc k5 in
      subst (λ (x : Accepted). IsInviter u file x.inviter x.inviter_key × IsOwn file x) same
        (
          record {
            others = others;
            first = first;
            key_in_block = s;
            key_there = need-eq-passed no_inviter_key _ h2;
            key_parsed = need-eq-passed bad_inviter_key _ h3;
            hashed =
                (text_eq_iff (c.key_hash key) u.key_hash).0
                  (demand-eq-passed keyhash_mismatch (text_eq (c.key_hash key) u.key_hash) h4);
          },
          record {
            same_file = refl;
            ed25519 = made_ed;
            wireguard = made_wg;
            host = unfold host_config in refl;
          },
        )

  joined :
      {S : Type 0} (st : Store S) (p : Paths) (s : S) (o : Checked Accepted) (r : Ran S (Unit {0}))
      → join_with c keys get_key join_key talk st p s o ≡ passed r
      → (a : Accepted) × (o ≡ passed a)
        × (r
            ≡ write_tree c keys get_key join_key talk st
                (final_paths c keys get_key join_key talk p a.file)
                s
                a)
  unfolding join_with
  joined st p s (refused e) r h = cc h
  joined st p s (passed a) r h = (a, refl, cc h)

  accepted-IsVouched :
      (arg : Text) (a : Accepted)
      → accepted c keys get_key join_key talk arg ≡ passed a
      → (u : Url) × (body : Bytes) × (parse_url arg ≡ Url.ok u)
        × IsVouched c get_key u.cookie u.key_hash body
        × (parse_file (c.text body) ≡ File.ok a.file)
        × IsInviter u a.file a.inviter a.inviter_key
        × IsOwn a.file a
  unfolding accepted
  accepted-IsVouched arg a h =
      let (u, h1, k1) = next-eq-passed (of_url (parse_url arg)) _ h in
      let (ed, h2, k2) = next-eq-passed (need no_keys keys.ed25519) _ k1 in
      let (wg, h3, k3) = next-eq-passed (need no_keys keys.wireguard) _ k2 in
      let reply =
        talk (address c keys get_key join_key talk u) (get_command_line c get_key u.cookie) in
      let got = replied c keys get_key join_key talk get_key u.cookie u.key_hash reply in
      let (body, h4, k4) = next-eq-passed (of_fetched get_refused got) _ k3 in
      let (file, h5, k5) = next-eq-passed (of_file (parse_file (c.text body))) _ k4 in
      let parsed = of_url-eq-passed (parse_url arg) h1 in
      let (inviter, own) =
        with_file-IsInviter u ed wg file a (need-eq-passed no_keys keys.ed25519 h2)
          (need-eq-passed no_keys keys.wireguard h3) k5 in
      (
        u,
        body,
        parsed,
        replied-IsVouched get_key u.cookie u.key_hash reply body (parse_url-key_hash arg u parsed)
            (of_fetched-eq-passed get_refused got h4),
        of_file-eq-passed (parse_file (c.text body)) h5 ∙ ap File.ok (sym own.same_file),
        subst (λ (f : File). IsInviter u f a.inviter a.inviter_key) (sym own.same_file) inviter,
        record {
          same_file = refl;
          ed25519 = own.ed25519;
          wireguard = own.wireguard;
          host = own.host;
        },
      )

  -- `join` writes nothing unless the inviter vouches for the invitation: the argument is a URL, and the
  -- invitation that came is vouched for by a key with the hash in the URL. The first host block is the
  -- inviter's: its key has that hash too, and unless a write fails the host file named after it holds that
  -- block. All that is written is made from that invitation, that block and the two keys that were
  -- generated, whose public halves are the new node's host file. What is written is read back.
  pub cmd_join-IsVouched :
      {S : Type 0} (st : Store S) (law : IsLawful st) (p : Paths) (s : S) (arg : Text)
      (r : Ran S (Unit {0}))
      → cmd_join c keys get_key join_key talk st p s (arg ∷ []) ≡ passed r
      → (u : Url) × (body : Bytes) × (a : Accepted) × (parse_url arg ≡ Url.ok u)
        × IsVouched c get_key u.cookie u.key_hash body
        × (parse_file (c.text body) ≡ File.ok a.file)
        × IsInviter u a.file a.inviter a.inviter_key
        × IsOwn a.file a
        × (let q = final_paths c keys get_key join_key talk p a.file in
            (r ≡ write_tree c keys get_key join_key talk st q s a)
            × Leaves st r (host_file q a.inviter.name) (host_text a.inviter))
  unfolding cmd_join
  cmd_join-IsVouched st law p s arg r h =
      let (a, whole, written) = joined st p s (accepted c keys get_key join_key talk arg) r h in
      let (u, body, parsed, vouched, read, inviter, own) = accepted-IsVouched arg a whole in
      let q = final_paths c keys get_key join_key talk p a.file in
      (
        u,
        body,
        a,
        parsed,
        vouched,
        read,
        inviter,
        own,
        (
          written,
          subst
              (λ (x : Ran _ (Unit {0})).
                Leaves st x (host_file q a.inviter.name) (host_text a.inviter))
              (sym written) (write_tree-Leaves c keys get_key join_key talk st law q s a),
        ),
      )
