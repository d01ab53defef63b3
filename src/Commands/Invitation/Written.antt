-- ===== src/Commands/Invitation/Written.antt =====
-- What `cmdJoin` leaves in the host file of the inviter.
use gsnet.Common.{
  ◌≡◌, refl, sym, ◌++◌, if◌then◌else◌, [], ◌∷◌, Option, none, some, Text, text_eq, codes,
}
use gsnet.Invite.File.{Block}
use gsnet.Invite.Exchange.{Crypto, Ephemeral}
use gsnet.Daemon.Paths.{
  Paths, hosts_dir, host_file, invitations_dir, ed25519_private, wg_private, conf_file,
}
use gsnet.Commands.{
  Store, IsLawful, Ran, stopped, done, and_then, calling, Problem, write_failed, mkdir_failed,
}
use gsnet.Config.Directory.{contents}
use gsnet.Commands.Invitation.{MyKeys, Accepted, write, own_conf, inviter_host, write_tree}
use gsnet.Config.{render}

-- A call that writes fails in this state.
pub data Fails {S : Type 0} (st : Store S) (t : S) : Type 0 where
  unwritten : (path text : Text) → st.write_file t path text ≡ none → Fails st t
  unmade : (path : Text) → st.mkdir_all t path ≡ none → Fails st t

-- The command stopped where a call failed, or the file has this text.
unfoldable pub Leaves : {S : Type 0} → Store S → Ran S (Unit {0}) → Text → Text → Type 0
Leaves st (stopped t e) path text = Fails st t
Leaves st (done t u) path text = (st.disk t).open_file path ≡ contents text

-- The host file of the inviter: the address, if its block has one, and the other entries of the block.
abbrev pub host_text : Block → Text
host_text b = render (
    (if text_eq b.address [] then [] else record { key = codes "Address"; value = b.address } ∷ [])
    ++ b.other)

and_then-Leaves :
    {S : Type 0} (st : Store S) (s : S) (e : Problem) (o : Option S)
    (k : S → Unit {0} → Ran S (Unit {0})) (path text : Text)
    → (o ≡ none → Fails st s)
    → ((t : S) (u : Unit {0}) → Leaves st (k t u) path text)
    → Leaves st (and_then (calling s e o) k) path text
unfolding Leaves
and_then-Leaves st s e none k path text bad h = bad refl
and_then-Leaves st s e (some t) k path text bad h = h t tt

calling-Leaves :
    {S : Type 0} (st : Store S) (law : IsLawful st) (s : S) (e : Problem) (o : Option S)
    (path text : Text)
    → o ≡ st.write_file s path text
    → Leaves st (calling s e o) path text
unfolding Leaves
calling-Leaves st law s e none path text h = unwritten path text (sym h)
calling-Leaves st law s e (some t) path text h = law.read-write s t path text (sym h)

put_then :
    {S : Type 0} (st : Store S) (path text : Text) (s : S) (q d : Text)
    (k : S → Unit {0} → Ran S (Unit {0}))
    → ((t : S) (u : Unit {0}) → Leaves st (k t u) path text)
    → Leaves st (and_then (calling s write_failed (st.write_file s q d)) k) path text
put_then st path text s q d k h =
    and_then-Leaves st s write_failed (st.write_file s q d) k path text (unwritten q d) h

make_then :
    {S : Type 0} (st : Store S) (path text : Text) (s : S) (q : Text)
    (k : S → Unit {0} → Ran S (Unit {0}))
    → ((t : S) (u : Unit {0}) → Leaves st (k t u) path text)
    → Leaves st (and_then (calling s mkdir_failed (st.mkdir_all s q)) k) path text
make_then st path text s q k h =
    and_then-Leaves st s mkdir_failed (st.mkdir_all s q) k path text (unmade q) h

module _ (c : Crypto) (keys : MyKeys) (get_key join_key : Ephemeral)
    (talk : Text → Text → Option Text) where
  pub write_tree-Leaves :
      {S : Type 0} (st : Store S) (law : IsLawful st) (p : Paths) (s : S) (a : Accepted)
      → Leaves st
          (write_tree c keys get_key join_key talk st p s a)
          (host_file p a.inviter.name)
          (host_text a.inviter)
  unfolding write_tree write inviter_host
  write_tree-Leaves {S = S} st law p s a =
      let path = host_file p a.inviter.name in
      let text = host_text a.inviter in
      let wg = keys.wg_private_text a.wg ++ b'\n' ∷ [] in
      let conf = own_conf c keys get_key join_key talk a.file in
      make_then st path text s (hosts_dir p) _ (λ s1 _.
        make_then st path text s1 (invitations_dir p) _ (λ s2 _.
          put_then st path text s2 (ed25519_private p) (keys.private_pem a.ed) _ (λ s3 _.
            put_then st path text s3 (wg_private p) wg _ (λ s4 _.
              put_then st path text s4 (conf_file p) conf _ (λ s5 _.
                put_then st path text s5 (host_file p a.file.invitee.name) a.my_host _ (λ s6 _.
                  calling-Leaves st law s6 write_failed (st.write_file s6 path text) path text
                    refl))))))
