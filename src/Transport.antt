-- ===== src/Transport.antt =====
-- internal/transport/transport.go: the server side of a connection. A connection is the text that the
-- peer sends before it closes; what the server does to it is a result.
pub mod Client
pub mod Served
pub mod Exchanged
pub mod Conns
pub mod Tests
use gsnet.Common.{
  ℕ, ◌≡◌, List, [], ◌∷◌, ◌++◌, ◌&&◌, Bool, true, false, Option, none, some, Text, text_eq, codes,
  length, ◌==◌, ◌||◌, if◌then◌else◌,
}
use gsnet.Strings.Cut.{Parts, cut, strip_prefix, ended_lines}
use gsnet.Strings.Fields.{fields}
use gsnet.Invite.Exchange.{
  Bytes, Crypto, Ephemeral, new_ephemeral, derive_key, ephemeral_pub_from_base64,
  ephemeral_pub_to_base64,
}

-- What a callback gives: the text of its error, or a file.
pub data Answer : Type 0 where
  refused : Text → Answer
  file : Bytes → Answer

-- What the server knows: `InviteGet` and `InviteJoin`, if they are installed, over a state S of theirs,
-- its key, and the texts that the errors of the key exchange print as.
pub record Server (S : Type 0) : Type 0 where
  pub ed_priv : Bytes
  pub invite_get : Option (S → Text → Answer)
  pub invite_join : Option (S → Text → Text → Bytes → S × Answer)
  pub bad_pub : Text → Text
  pub bad_base64 : Text → Text
  pub no_ephemeral : Text
  pub no_key : Text
  pub no_seal : Text

-- How the handler of a connection ends: with an error and nothing written, or with a reply. A gossip
-- connection is joined to the pool, and gives its lines to `OnGossip`.
pub data Outcome : Type 0 where
  closed : Outcome
  replied : Text → Outcome
  gossip : List Text → Outcome

-- `strings.TrimRight(s, "\r\n")`
abbrev is_eol : ℕ → Bool
is_eol c = c == b'\n' || c == b'\r'

unfoldable pub trim_eol : Text → Text
trim_eol [] = []
trim_eol (c ∷ cs) = let rest = trim_eol cs in if is_eol c && text_eq rest [] then [] else c ∷ rest

abbrev line : Text → Text
line s = s ++ (b'\n' ∷ [])

-- `errReply`
unfoldable pub err_reply : Text → Outcome
err_reply e = replied (codes "ERR " ++ line e)

-- `sigPayload`
unfoldable pub sig_payload : Crypto → Bytes → Text → Bytes
sig_payload c server_pub cookie =
    c.utf8 (codes "gsnet-invite-v1") ++ (0 ∷ (server_pub ++ (0 ∷ c.utf8 cookie)))

module _ {S : Type 0} (c : Crypto) (srv : Server S) where
  -- The reply once the file is sealed.
  unfoldable pub sealed_reply : Ephemeral → Text → Option Bytes → Outcome
  unfolding sig_payload err_reply
  sealed_reply e cookie none = err_reply srv.no_seal
  sealed_reply e cookie (some ct) = replied (
      codes "OK "
      ++ (ephemeral_pub_to_base64 c e.public
          ++ (b' '
              ∷ (c.base64_encode (c.ed_sign srv.ed_priv (sig_payload c e.public cookie))
                  ++ (b'\n' ∷ line (c.base64_encode ct))))))

  unfoldable pub keyed_reply : Ephemeral → Text → Bytes → Option Bytes → Outcome
  unfolding sealed_reply err_reply
  keyed_reply e cookie plaintext none = err_reply srv.no_key
  keyed_reply e cookie plaintext (some key) = sealed_reply e cookie (c.cipher_seal key plaintext)

  unfoldable pub ephemeral_reply : Text → Bytes → Bytes → Option Ephemeral → Outcome
  unfolding keyed_reply err_reply derive_key
  ephemeral_reply cookie client_pub plaintext none = err_reply srv.no_ephemeral
  ephemeral_reply cookie client_pub plaintext (some e) =
      keyed_reply e cookie plaintext (derive_key c e client_pub cookie)

  -- `encryptAndReply`, with the random bytes of this connection.
  unfoldable pub encrypt_and_reply : Option Bytes → Text → Bytes → Bytes → Outcome
  unfolding ephemeral_reply new_ephemeral
  encrypt_and_reply seed cookie client_pub plaintext =
      ephemeral_reply cookie client_pub plaintext (new_ephemeral c seed)

  -- The reply to what a callback gave.
  unfoldable pub answer_reply : Option Bytes → Text → Bytes → Answer → Outcome
  unfolding encrypt_and_reply err_reply
  answer_reply seed cookie client_pub (refused e) = err_reply e
  answer_reply seed cookie client_pub (file body) = encrypt_and_reply seed cookie client_pub body

  unfoldable pub get_with :
      (S → Text → Answer) → S → Option Bytes → Text → Text → Option Bytes → Outcome
  unfolding answer_reply err_reply
  get_with get s seed cookie b64 none = err_reply (srv.bad_pub b64)
  get_with get s seed cookie b64 (some client_pub) =
      answer_reply seed cookie client_pub (get s cookie)

  unfoldable pub get_fields : S → Option Bytes → List Text → Outcome
  unfolding get_with ephemeral_pub_from_base64
  get_fields s seed (cookie ∷ b64 ∷ []) = elim srv.invite_get [
    | none ↦ replied (line (codes "ERR invite not enabled"))
    | some get ↦ get_with get s seed cookie b64 (ephemeral_pub_from_base64 c b64)
  ]
  get_fields s seed [] = replied (line (codes "ERR malformed GET"))
  get_fields s seed (a ∷ []) = replied (line (codes "ERR malformed GET"))
  get_fields s seed (a ∷ b ∷ d ∷ ds) = replied (line (codes "ERR malformed GET"))

  -- `handleInvite2Get`
  unfoldable pub handle_invite2_get : S → Option Bytes → Text → Outcome
  unfolding get_fields
  handle_invite2_get s seed rest = get_fields s seed (fields rest)

  -- The host configuration of the invitee, decoded.
  unfoldable pub join_body :
      (S → Text → Text → Bytes → S × Answer)
      → S
      → Option Bytes
      → Text
      → Text
      → Bytes
      → Text
      → Option Bytes
      → S × Outcome
  unfolding answer_reply
  join_body join s seed cookie invitee_name client_pub b64 none =
      (s, replied (codes "ERR base64: " ++ line (srv.bad_base64 b64)))
  join_body join s seed cookie invitee_name client_pub b64 (some host_config) =
      let (t, answer) = join s cookie invitee_name host_config in
      (t, answer_reply seed cookie client_pub answer)

  unfoldable pub join_line :
      (S → Text → Text → Bytes → S × Answer)
      → S
      → Option Bytes
      → Text
      → Text
      → Bytes
      → Parts
      → S × Outcome
  unfolding join_body trim_eol
  join_line join s seed cookie invitee_name client_pub none = (s, closed)
  join_line join s seed cookie invitee_name client_pub (some (body, behind)) =
      let b64 = trim_eol body in
      join_body join s seed cookie invitee_name client_pub b64 (c.base64_decode b64)

  unfoldable pub join_with :
      (S → Text → Text → Bytes → S × Answer)
      → S
      → Option Bytes
      → Text
      → Text
      → Text
      → Text
      → Option Bytes
      → S × Outcome
  unfolding join_line cut err_reply
  join_with join s seed cookie invitee_name b64 more none = (s, err_reply (srv.bad_pub b64))
  join_with join s seed cookie invitee_name b64 more (some client_pub) =
      join_line join s seed cookie invitee_name client_pub (cut b'\n' more)

  unfoldable pub join_fields : S → Option Bytes → List Text → Text → S × Outcome
  unfolding join_with ephemeral_pub_from_base64
  join_fields s seed (cookie ∷ invitee_name ∷ b64 ∷ []) more = elim srv.invite_join [
    | none ↦ (s, replied (line (codes "ERR invite not enabled")))
    | some join ↦
        join_with join s seed cookie invitee_name b64 more (ephemeral_pub_from_base64 c b64)
  ]
  join_fields s seed [] more = (s, replied (line (codes "ERR malformed JOIN")))
  join_fields s seed (x ∷ []) more = (s, replied (line (codes "ERR malformed JOIN")))
  join_fields s seed (x ∷ y ∷ []) more = (s, replied (line (codes "ERR malformed JOIN")))
  join_fields s seed (x ∷ y ∷ z ∷ w ∷ ws) more = (s, replied (line (codes "ERR malformed JOIN")))

  -- `handleInvite2Join`
  unfoldable pub handle_invite2_join : S → Option Bytes → Text → Text → S × Outcome
  unfolding join_fields
  handle_invite2_join s seed rest more = join_fields s seed (fields rest) more

  unfoldable pub join_command : S → Option Bytes → Text → Option Text → S × Outcome
  unfolding handle_invite2_join
  join_command s seed more none = (s, closed)
  join_command s seed more (some rest) = handle_invite2_join s seed rest more

  unfoldable pub get_command : S → Option Bytes → Text → Text → Option Text → S × Outcome
  unfolding handle_invite2_get join_command strip_prefix
  get_command s seed command more (some rest) = (s, handle_invite2_get s seed rest)
  get_command s seed command more none =
      join_command s seed more (strip_prefix (codes "INVITE2 JOIN ") command)

  unfoldable pub on_first_line : S → Option Bytes → Parts → S × Outcome
  unfolding get_command trim_eol strip_prefix ended_lines
  on_first_line s seed none = (s, closed)
  on_first_line s seed (some (first, more)) =
      let command = trim_eol first in
      if text_eq command (codes "GOSSIP")
      then (s, gossip (ended_lines [] more))
      else get_command s seed command more (strip_prefix (codes "INVITE2 GET ") command)

  -- `handleInbound`
  unfoldable pub handle_inbound : S → Option Bytes → Text → S × Outcome
  unfolding on_first_line cut
  handle_inbound s seed input = on_first_line s seed (cut b'\n' input)
