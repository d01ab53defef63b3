-- ===== src/Commands/Invitation/Tests.antt =====
-- A node joins with an invitation whose inviter gives the same sealed reply to both commands.
use gsnet.Common.{◌≡◌, refl, [], ◌∷◌, ◌++◌, Option, some, Text, text_eq, codes}
use gsnet.Strings.Space.{is_space, trim_space}
use gsnet.Strings.Cut.{cut, cut_last, strip_prefix}
use gsnet.Strings.Decimal.{itoa, atoi}
use gsnet.Strings.Fold.{equal_fold, to_lower}
use gsnet.Dict.{get}
use gsnet.Config.{parse, get_first}
use gsnet.Config.Keys.{canonical_key}
use gsnet.Invite.File
use gsnet.Invite.File.{parse_file}
use gsnet.Invite.Url
use gsnet.Invite.Url.{Url, parse_url}
use gsnet.Invite.Exchange.{Bytes, Crypto, derive_key, ephemeral_pub_from_base64}
use gsnet.Transport.{trim_eol, sig_payload}
use gsnet.Transport.Client.{
  need, demand, two_fields, find_inviter_ed25519_pub, verify, check_inviter, open_reply,
  parse_encrypted_reply, round_trip,
}
use gsnet.Transport.Client.Checked.{IsVouched}
use gsnet.Transport.Tests.{key, spell, toy, pair, invitation}
use gsnet.Commands.{Ran}
use gsnet.Commands.Invitation
use gsnet.Commands.Invitation.{
  MyKeys, Checked, Accepted, passed, next, of_fetched, of_file, of_url, first_host, key_text,
  parse_public, replied, address, with_file, accepted, final_paths, write_tree, cmd_join,
}
use gsnet.Commands.Invitation.Written.{Leaves, host_text}
use gsnet.Commands.Invitation.Vouched.{IsInviter, IsOwn, cmd_join-IsVouched}
use gsnet.Daemon.Paths.{host_file}
use gsnet.Commands.Tests.{Files, store, store-IsLawful, here, tree}

abbrev hash : Text
hash = codes "0123456789abcdef0123456789abcdef0123456789a"

abbrev crypto : Crypto
crypto = record toy { key_hash = λ k. hash }

abbrev my_keys : MyKeys
my_keys = record {
  ed25519 = some (1 ∷ []);
  wireguard = some (2 ∷ []);
  private_pem = λ k. codes "p";
  ed_public_text = λ k. codes "e";
  wg_private_text = λ k. codes "w";
  wg_public_text = λ k. codes "v";
}

abbrev reply : Text
reply =
    codes "OK "
    ++ (spell key
        ++ (b' ' ∷ (spell (1 ∷ []) ++ (b'\n' ∷ (spell (0 ∷ invitation) ++ (b'\n' ∷ []))))))

abbrev talk : Text → Text → Option Text
talk address command = some reply

abbrev url : Text
url = codes "192.0.2.1:655/" ++ (hash ++ codes "secret")

joins :
    (r : Ran Files (Unit {0})) × (cmd_join crypto my_keys pair pair talk store here tree (url ∷ [])
      ≡ passed r)
unfolding cmd_join accepted next Invitation.need Invitation.demand of_fetched of_file of_url
    first_host key_text parse_public replied address with_file parse_url parse_file cut cut_last
    strip_prefix atoi itoa round_trip parse_encrypted_reply open_reply check_inviter
    find_inviter_ed25519_pub verify sig_payload derive_key ephemeral_pub_from_base64 trim_eol
    two_fields need demand parse canonical_key get to_lower equal_fold get_first trim_space is_space
    text_eq
joins = (_, refl)

cmd_join-IsVouched_example :
    (u : Url) × (body : Bytes) × (a : Accepted) × (parse_url url ≡ Url.ok u)
    × IsVouched crypto pair u.cookie u.key_hash body
    × (parse_file (crypto.text body) ≡ File.ok a.file)
    × IsInviter crypto my_keys pair pair talk u a.file a.inviter a.inviter_key
    × IsOwn crypto my_keys pair pair talk a.file a
    × (let q = final_paths crypto my_keys pair pair talk here a.file in
        (joins.0 ≡ write_tree crypto my_keys pair pair talk store q tree a)
        × Leaves store joins.0 (host_file q a.inviter.name) (host_text a.inviter))
cmd_join-IsVouched_example =
    cmd_join-IsVouched crypto my_keys pair pair talk store store-IsLawful here tree url joins.0
      joins.1
