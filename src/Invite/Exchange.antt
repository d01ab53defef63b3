-- ===== src/Invite/Exchange.antt =====
-- internal/invite/crypto.go: the key exchange that protects an invitation. X25519, HKDF, the cipher,
-- base64 and Ed25519 are parameters; `none` stands for an error. `utf8` and `text` convert between a
-- string and its bytes.
use gsnet.Common.{ℕ, List, Bool, Option, none, some, Text, codes, length, ◌==◌, if◌then◌else◌}

abbrev pub Bytes : Type 0
Bytes = List ℕ

pub record Crypto : Type 0 where
  pub x25519 : Bytes → Bytes → Option Bytes
  pub basepoint : Bytes
  -- HKDF with SHA-256: the secret, the salt and the info give 32 bytes.
  pub hkdf : Bytes → Bytes → Bytes → Bytes
  pub cipher_seal : Bytes → Bytes → Option Bytes
  pub cipher_open : Bytes → Bytes → Option Bytes
  pub base64_encode : Bytes → Text
  pub base64_decode : Text → Option Bytes
  pub ed_sign : Bytes → Bytes → Bytes
  pub ed_verify : Bytes → Bytes → Bytes → Bool
  pub ed_public : Bytes → Bytes
  -- base64.RawURLEncoding of SHA-256
  pub key_hash : Bytes → Text
  pub utf8 : Text → Bytes
  pub text : Bytes → Text

abbrev pub x25519_pub_len : ℕ
x25519_pub_len = 32

pub record Ephemeral : Type 0 where
  pub public : Bytes
  pub priv : Bytes

module _ (c : Crypto) where
  public_of : Bytes → Option Bytes → Option Ephemeral
  public_of seed none = none
  public_of seed (some p) = some (record { public = p; priv = seed })

  -- `NewEphemeral`, on the 32 random bytes that are read, if they are.
  unfoldable pub new_ephemeral : Option Bytes → Option Ephemeral
  unfolding public_of
  new_ephemeral none = none
  new_ephemeral (some seed) = public_of seed (c.x25519 seed c.basepoint)

  expand : Text → Option Bytes → Option Bytes
  expand cookie none = none
  expand cookie (some shared) =
      some (c.hkdf shared (c.utf8 cookie) (c.utf8 (codes "gsnet-invite-v1")))

  -- `DeriveKey`
  unfoldable pub derive_key : Ephemeral → Bytes → Text → Option Bytes
  unfolding expand
  derive_key e peer_pub cookie = expand cookie (c.x25519 e.priv peer_pub)

  sized : Option Bytes → Option Bytes
  sized none = none
  sized (some b) = if length b == x25519_pub_len then some b else none

  -- `EphemeralPubFromBase64`
  unfoldable pub ephemeral_pub_from_base64 : Text → Option Bytes
  unfolding sized
  ephemeral_pub_from_base64 s = sized (c.base64_decode s)

  -- `EphemeralPubToBase64`
  abbrev pub ephemeral_pub_to_base64 : Bytes → Text
  ephemeral_pub_to_base64 p = c.base64_encode p
