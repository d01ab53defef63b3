-- ===== src/Commands/Invitation.antt =====
-- `cmdInvite` and `cmdJoin`. `talk` gives what the server at an address sends back to a command before it
-- closes; the keys that are generated are parameters. `none` stands for an error.
pub mod Written
pub mod Vouched
mod Tests
use gsnet.Common.{
  ℕ, List, [], ◌∷◌, ◌++◌, Bool, true, false, Option, none, some, Text, text_eq, codes, length, ◌==◌,
  if◌then◌else◌,
}
use gsnet.Common.Int.{ℤ, pos}
use gsnet.Strings.Decimal.{itoa}
use gsnet.Strings.Space.{trim_space}
use gsnet.Config
use gsnet.Config.{Entry, get_first, render, parse}
use gsnet.Config.Directory.{Opened, missing, unreadable, contents, load_directory}
use gsnet.NodeName
use gsnet.NodeName.{validate}
use gsnet.Invite.Url
use gsnet.Invite.Url.{Url, parse_url, build_url, print_url}
use gsnet.Invite.File
use gsnet.Invite.File.{File, Block, no_block, parse_file}
use gsnet.Invite.Exchange.{Bytes, Crypto, Ephemeral}
use gsnet.Transport.Client.{
  Refusal, no_reply, Fetched, rejected, fetched, round_trip, get_command_line, join_command_line,
}
use gsnet.Daemon.Paths.{
  Paths, join, hosts_dir, invitations_dir, ed25519_private, wg_private, conf_file, host_file,
}
use gsnet.Commands.{
  Store, Ran, stopped, done, and_then, loading, calling, write_failed, mkdir_failed,
}

pub data Refused : Type 0 where
  usage no_keys no_inviter no_inviter_key bad_inviter_key keyhash_mismatch : Refused
  bad_url : Url.Error → Refused
  bad_file : File.Error → Refused
  get_refused join_refused : Refusal → Refused

pub data Checked (A : Type 0) : Type 0 where
  refused : Refused → Checked A
  passed : A → Checked A

-- `if err != nil { return err }`, and then the rest.
unfoldable pub next : {A : Type 0} {B : Type 0} → Checked A → (A → Checked B) → Checked B
next (refused e) k = refused e
next (passed a) k = k a

unfoldable pub need : {A : Type 0} → Refused → Option A → Checked A
need e none = refused e
need e (some a) = passed a

unfoldable pub demand : Refused → Bool → Checked (Unit {0})
demand e true = passed tt
demand e false = refused e

unfoldable pub of_fetched : {A : Type 0} → (Refusal → Refused) → Fetched A → Checked A
of_fetched f (rejected e) = refused (f e)
of_fetched f (fetched a) = passed a

unfoldable pub of_file : File.Result File → Checked File
of_file (File.err e) = refused (bad_file e)
of_file (File.ok f) = passed f

unfoldable pub of_url : Url.Result → Checked Url
of_url (Url.err e) = refused (bad_url e)
of_url (Url.ok u) = passed u

unfoldable pub first_host : List Block → Checked Block
first_host [] = refused no_inviter
first_host (h ∷ hs) = passed h

-- What has been generated, and how it is written.
pub record MyKeys : Type 0 where
  pub ed25519 : Option Bytes
  pub wireguard : Option Bytes
  pub private_pem : Bytes → Text
  pub ed_public_text : Bytes → Text
  pub wg_private_text : Bytes → Text
  pub wg_public_text : Bytes → Text

-- What `cmdJoin` has once the inviter has taken it in.
pub record Accepted : Type 0 where
  pub ed : Bytes
  pub wg : Bytes
  pub file : File
  pub inviter : Block
  pub inviter_key : Bytes
  pub my_host : Text

-- The inviter's key in its block, not empty.
unfoldable pub key_text : Option Text → Option Text
unfolding trim_space
key_text none = none
key_text (some v) = let t = trim_space v in if text_eq t [] then none else some t

module _ (c : Crypto) (keys : MyKeys) (get_key join_key : Ephemeral)
    (talk : Text → Text → Option Text) where
  -- `keys.ParseEd25519PublicBase64`
  unfoldable pub parse_public : Text → Option Bytes
  parse_public s = elim (c.base64_decode s) [
    | none ↦ none
    | some b ↦ if length b == 32 then some b else none
  ]

  unfoldable pub replied : Ephemeral → Text → Text → Option Text → Fetched Bytes
  unfolding round_trip
  replied e cookie hash none = rejected no_reply
  replied e cookie hash (some reply) = round_trip c e cookie hash reply

  unfoldable pub host_config : Bytes → Bytes → Text
  unfolding render
  host_config ed wg = render (
      record { key = codes "Ed25519PublicKey"; value = keys.ed_public_text ed }
      ∷ record { key = codes "WGPublicKey"; value = keys.wg_public_text wg }
      ∷ [])

  unfoldable pub address : Url → Text
  address u = u.host ++ (b':' ∷ itoa u.port)

  -- The checks on the invitation, and the join.
  unfoldable pub with_file : Url → Bytes → Bytes → File → Checked Accepted
  unfolding next need demand of_fetched first_host key_text parse_public replied host_config address
      get_first
  with_file u ed wg file = next (first_host file.hosts) (λ inviter.
      next (need no_inviter_key (key_text (get_first inviter.other (codes "Ed25519PublicKey"))))
        (λ s. next (need bad_inviter_key (parse_public s)) (λ key.
          next (demand keyhash_mismatch (text_eq (c.key_hash key) u.key_hash)) (λ _.
            let mine = host_config ed wg in
            let command = join_command_line c join_key u.cookie file.invitee.name (c.utf8 mine) in
            next
              (of_fetched join_refused
                (replied join_key u.cookie u.key_hash (talk (address u) command)))
              (λ _. passed (record {
                ed = ed;
                wg = wg;
                file = file;
                inviter = inviter;
                inviter_key = key;
                my_host = mine;
              }))))))

  -- `cmdJoin` up to its first write.
  unfoldable pub accepted : Text → Checked Accepted
  unfolding next need of_url of_fetched of_file with_file replied address parse_url parse_file
  accepted arg = next (of_url (parse_url arg)) (λ u. next (need no_keys keys.ed25519) (λ ed.
      next (need no_keys keys.wireguard) (λ wg.
        next
          (of_fetched get_refused (
            replied get_key u.cookie u.key_hash
              (talk (address u) (get_command_line c get_key u.cookie))))
          (λ body. next (of_file (parse_file (c.text body))) (with_file u ed wg)))))

  -- The configuration: the name, and whom to connect to.
  unfoldable pub connect_entries : List Text → List Entry
  connect_entries [] = []
  connect_entries (ct ∷ cts) = record { key = codes "ConnectTo"; value = ct } ∷ connect_entries cts

  unfoldable pub own_conf : File → Text
  unfolding connect_entries render
  own_conf f =
      render (
        record { key = codes "Name"; value = f.invitee.name }
        ∷ connect_entries f.invitee.connect_to)

  unfoldable pub inviter_host : Block → Text
  unfolding render
  inviter_host b = render (
      (if text_eq b.address []
        then []
        else record { key = codes "Address"; value = b.address } ∷ [])
      ++ b.other)

  unfoldable pub final_paths : Paths → File → Paths
  final_paths p f = record p { netname = if text_eq f.netname [] then p.netname else f.netname }

module _ (c : Crypto) (keys : MyKeys) (get_key join_key : Ephemeral)
    (talk : Text → Text → Option Text) {S : Type 0} (st : Store S) where
  unfoldable pub write : S → Text → Text → Ran S (Unit {0})
  write s path text = calling s write_failed (st.write_file s path text)

  -- `cmdJoin` from its first write on.
  unfoldable pub write_tree : Paths → S → Accepted → Ran S (Unit {0})
  unfolding write own_conf inviter_host hosts_dir invitations_dir ed25519_private wg_private
      conf_file host_file
  write_tree p s a = and_then (calling s mkdir_failed (st.mkdir_all s (hosts_dir p))) (λ s1 _.
      and_then (calling s1 mkdir_failed (st.mkdir_all s1 (invitations_dir p))) (λ s2 _.
        and_then (write s2 (ed25519_private p) (keys.private_pem a.ed)) (λ s3 _.
          and_then (write s3 (wg_private p) (keys.wg_private_text a.wg ++ b'\n' ∷ [])) (λ s4 _.
            and_then (write s4 (conf_file p) (own_conf c keys get_key join_key talk a.file))
              (λ s5 _. and_then (write s5 (host_file p a.file.invitee.name) a.my_host) (λ s6 _.
                write s6 (host_file p a.inviter.name)
                  (inviter_host c keys get_key join_key talk a.inviter)))))))

  join_with : Paths → S → Checked Accepted → Checked (Ran S (Unit {0}))
  unfolding write_tree final_paths
  join_with p s (refused e) = refused e
  join_with p s (passed a) =
      passed (write_tree (final_paths c keys get_key join_key talk p a.file) s a)

  -- `cmdJoin`: refused before anything is written, or the run of its writes.
  unfoldable pub cmd_join : Paths → S → List Text → Checked (Ran S (Unit {0}))
  unfolding join_with accepted
  cmd_join p s (arg ∷ []) = join_with p s (accepted c keys get_key join_key talk arg)
  cmd_join p s _ = refused usage
