-- ===== src/Transport/Client.antt =====
-- internal/transport/client.go: the side of the invitee, on the whole reply of the server.
pub mod Checked
use gsnet.Common.{
  ℕ, ◌≡◌, List, [], ◌∷◌, ◌++◌, ◌&&◌, ◌||◌, not, Bool, true, false, Option, none, some, Text,
  text_eq, codes, length, ◌==◌, if◌then◌else◌,
}
use gsnet.Strings.Space.{trim_space}
use gsnet.Strings.Cut.{Parts, cut, strip_prefix}
use gsnet.Strings.Fields.{fields}
use gsnet.Config.{get_first}
use gsnet.Invite.File
use gsnet.Invite.File.{File, Block, parse_file}
use gsnet.Invite.Exchange.{
  Bytes, Crypto, Ephemeral, derive_key, ephemeral_pub_from_base64, ephemeral_pub_to_base64,
}
use gsnet.Transport.{trim_eol, sig_payload}

pub data Refusal : Type 0 where
  no_reply server_replied malformed bad_server_pub bad_signature_text no_ciphertext bad_ciphertext
        no_key :
      Refusal
  decrypt_failed missing_key keyhash_mismatch signature_failed : Refusal

pub data Fetched (A : Type 0) : Type 0 where
  rejected : Refusal → Fetched A
  fetched : A → Fetched A

-- `if err != nil { return nil, ... }`, and then the rest.
unfoldable pub need : {A : Type 0} {B : Type 0} → Refusal → Option A → (A → Fetched B) → Fetched B
need e none next = rejected e
need e (some a) next = next a

-- `if !good { return nil, ... }`, and then the rest.
unfoldable pub demand : {B : Type 0} → Refusal → Bool → Fetched B → Fetched B
demand e true next = next
demand e false next = rejected e

unfoldable pub two_fields : List Text → Option (Text × Text)
two_fields (a ∷ b ∷ []) = some (a, b)
two_fields [] = none
two_fields (a ∷ []) = none
two_fields (a ∷ b ∷ d ∷ ds) = none

module _ (c : Crypto) where
  sized_public : Option Bytes → Option Bytes
  sized_public none = none
  sized_public (some b) = if length b == 32 then some b else none

  trimmed_public : Option Text → Option Bytes
  unfolding sized_public trim_space
  trimmed_public none = none
  trimmed_public (some s) = sized_public (c.base64_decode (trim_space s))

  inviter_of : List Block → Option Bytes
  unfolding trimmed_public get_first
  inviter_of [] = none
  inviter_of (h ∷ hs) = trimmed_public (get_first h.other (codes "Ed25519PublicKey"))

  inviter_in : File.Result File → Option Bytes
  unfolding inviter_of
  inviter_in (File.err e) = none
  inviter_in (File.ok f) = inviter_of f.hosts

  -- `findInviterEd25519Pub`
  unfoldable pub find_inviter_ed25519_pub : Bytes → Option Bytes
  unfolding inviter_in parse_file
  find_inviter_ed25519_pub file = inviter_in (parse_file (c.text file))

  -- `Verify` of the key.
  unfoldable pub verify : Bytes → Bytes → Bytes → Bool
  verify key msg sig = length key == 32 && c.ed_verify key msg sig

  -- The checks on the inviter's key, at the end of `parseEncryptedReply`.
  unfoldable pub check_inviter : Text → Text → Bytes → Bytes → Bytes → Fetched Bytes
  unfolding need demand find_inviter_ed25519_pub verify sig_payload
  check_inviter cookie expected server_pub sig plaintext =
      need missing_key (find_inviter_ed25519_pub plaintext) (λ key.
        demand keyhash_mismatch (text_eq expected [] || text_eq (c.key_hash key) expected) (
          demand signature_failed (verify key (sig_payload c server_pub cookie) sig)
            (fetched plaintext)))

  -- From the second line of the reply to the plaintext.
  unfoldable pub open_reply : Ephemeral → Text → Text → Bytes → Bytes → Parts → Fetched Bytes
  unfolding need derive_key trim_eol check_inviter
  open_reply e cookie expected server_pub sig more = need no_ciphertext more (λ second.
      need bad_ciphertext (c.base64_decode (trim_eol second.0)) (λ ct.
        need no_key (derive_key c e server_pub cookie) (λ key.
          need decrypt_failed (c.cipher_open key ct)
            (λ plaintext. check_inviter cookie expected server_pub sig plaintext))))

  -- `parseEncryptedReply`, on the status line without its prefix.
  unfoldable pub parse_encrypted_reply : Ephemeral → Text → Text → Text → Text → Fetched Bytes
  unfolding need two_fields ephemeral_pub_from_base64 open_reply cut
  parse_encrypted_reply e cookie expected status more =
      need malformed (two_fields (fields status)) (λ parts.
        need bad_server_pub (ephemeral_pub_from_base64 c parts.0) (λ server_pub.
          need bad_signature_text (c.base64_decode parts.1)
            (λ sig. open_reply e cookie expected server_pub sig (cut b'\n' more))))

  -- `roundtrip`, on what the server sends back before it closes.
  unfoldable pub round_trip : Ephemeral → Text → Text → Text → Fetched Bytes
  unfolding need trim_eol parse_encrypted_reply cut strip_prefix
  round_trip e cookie expected reply = need no_reply (cut b'\n' reply) (λ first.
      need server_replied (strip_prefix (codes "OK ") (trim_eol first.0))
        (λ status. parse_encrypted_reply e cookie expected status first.1))

  -- The command of `InviteGet`, and that of `InviteJoin`.
  abbrev pub get_command_line : Ephemeral → Text → Text
  get_command_line e cookie =
      codes "INVITE2 GET "
      ++ (cookie ++ (b' ' ∷ (ephemeral_pub_to_base64 c e.public ++ (b'\n' ∷ []))))

  abbrev pub join_command_line : Ephemeral → Text → Text → Bytes → Text
  join_command_line e cookie invitee_name host_config =
      codes "INVITE2 JOIN "
      ++ (cookie
          ++ (b' '
              ∷ (invitee_name
                  ++ (b' '
                      ∷ (ephemeral_pub_to_base64 c e.public
                          ++ (b'\n' ∷ (c.base64_encode host_config ++ (b'\n' ∷ []))))))))
