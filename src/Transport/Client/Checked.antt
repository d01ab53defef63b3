-- ===== src/Transport/Client/Checked.antt =====
-- What the invitee knows of a file that it accepts.
use gsnet.Common.{
  ◌≡◌, ◌≢◌, refl, sym, ap, ◌∙◌, [], ◌||◌, Bool, true, false, Option, none, some, Text, text_eq,
  text_eq_iff, codes, arith,
}
use gsnet.Strings.Cut.{Parts, cut, strip_prefix}
use gsnet.Strings.Fields.{fields}
use gsnet.Invite.Exchange.{Bytes, Crypto, Ephemeral, derive_key, ephemeral_pub_from_base64}
use gsnet.Transport.{trim_eol, sig_payload}
use gsnet.Transport.Client.{
  Refusal, no_reply, server_replied, malformed, bad_server_pub, bad_signature_text, no_ciphertext,
  bad_ciphertext, no_key, decrypt_failed, missing_key, keyhash_mismatch, signature_failed, Fetched,
  fetched, need, demand, two_fields, find_inviter_ed25519_pub, verify, check_inviter, open_reply,
  parse_encrypted_reply, round_trip,
}

need_inv :
    {A : Type 0} {B : Type 0} (e : Refusal) (o : Option A) (f : A → Fetched B) (b : B)
    → need e o f ≡ fetched b
    → (a : A) × (o ≡ some a) × (f a ≡ fetched b)
unfolding need
need_inv e none f b h = cc h
need_inv e (some a) f b h = (a, refl, h)

demand_inv :
    {B : Type 0} (e : Refusal) (g : Bool) (r : Fetched B) (b : B)
    → demand e g r ≡ fetched b
    → (g ≡ true) × (r ≡ fetched b)
unfolding demand
demand_inv e true r b h = (refl, h)
demand_inv e false r b h = cc h

module _ (c : Crypto) where
  -- The inviter vouches for the file: the key in it has the expected hash and has signed the server's
  -- half of this exchange, under whose key the file was sealed.
  pub record IsVouched (e : Ephemeral) (cookie expected : Text) (plaintext : Bytes) : Type 0 where
    pub key : Bytes
    pub in_file : find_inviter_ed25519_pub c plaintext ≡ some key
    pub hashed : c.key_hash key ≡ expected
    pub server_pub : Bytes
    pub sig : Bytes
    pub signed : c.ed_verify key (sig_payload c server_pub cookie) sig ≡ true
    pub session : Bytes
    pub agreed : derive_key c e server_pub cookie ≡ some session
    pub sealed : Bytes
    pub opened : c.cipher_open session sealed ≡ some plaintext

  -- The checks at the end of the reply.
  checked :
      (cookie expected : Text) (server_pub sig pt plaintext : Bytes)
      → expected ≢ []
      → check_inviter c cookie expected server_pub sig pt ≡ fetched plaintext
      → (pt ≡ plaintext)
        × ((key : Bytes) × (find_inviter_ed25519_pub c pt ≡ some key)
            × (c.key_hash key ≡ expected)
            × (c.ed_verify key (sig_payload c server_pub cookie) sig ≡ true))
  unfolding check_inviter verify
  checked cookie expected server_pub sig pt plaintext ne h =
      let (key, found, e1) = need_inv missing_key (find_inviter_ed25519_pub c pt) _ plaintext h in
      let (same, e2) =
        demand_inv keyhash_mismatch (text_eq expected [] || text_eq (c.key_hash key) expected) _
          plaintext e1 in
      let (good, e3) =
        demand_inv signature_failed (verify c key (sig_payload c server_pub cookie) sig) _ plaintext
          e2 in
      (
        cc e3,
        (
          key,
          found,
          ground (arith, text_eq_iff expected [], text_eq_iff (c.key_hash key) expected),
          ground arith,
        ),
      )

  vouched :
      (e : Ephemeral) (cookie expected : Text) (server_pub sig ct key pt plaintext : Bytes)
      → expected ≢ []
      → derive_key c e server_pub cookie ≡ some key
      → c.cipher_open key ct ≡ some pt
      → check_inviter c cookie expected server_pub sig pt ≡ fetched plaintext
      → IsVouched e cookie expected plaintext
  vouched e cookie expected server_pub sig ct key pt plaintext ne agreed opened h =
      let (same, (inviter, found, hashed, signed)) =
        checked cookie expected server_pub sig pt plaintext ne h in
      record {
        key = inviter;
        in_file = ap (find_inviter_ed25519_pub c) (sym same) ∙ found;
        hashed = hashed;
        server_pub = server_pub;
        sig = sig;
        signed = signed;
        session = key;
        agreed = agreed;
        sealed = ct;
        opened = opened ∙ ap some same;
      }

  open_reply-IsVouched :
      (e : Ephemeral) (cookie expected : Text) (server_pub sig : Bytes) (more : Parts)
      (plaintext : Bytes)
      → expected ≢ []
      → open_reply c e cookie expected server_pub sig more ≡ fetched plaintext
      → IsVouched e cookie expected plaintext
  unfolding open_reply
  open_reply-IsVouched e cookie expected server_pub sig more plaintext ne h =
      let (second, h6, e6) = need_inv no_ciphertext more _ plaintext h in
      let (ct, h7, e7) =
        need_inv bad_ciphertext (c.base64_decode (trim_eol second.0)) _ plaintext e6 in
      let (session, h8, e8) = need_inv no_key (derive_key c e server_pub cookie) _ plaintext e7 in
      let (pt, h9, e9) = need_inv decrypt_failed (c.cipher_open session ct) _ plaintext e8 in
      vouched e cookie expected server_pub sig ct session pt plaintext ne h8 h9 e9

  parse_encrypted_reply-IsVouched :
      (e : Ephemeral) (cookie expected status more : Text) (plaintext : Bytes)
      → expected ≢ []
      → parse_encrypted_reply c e cookie expected status more ≡ fetched plaintext
      → IsVouched e cookie expected plaintext
  unfolding parse_encrypted_reply
  parse_encrypted_reply-IsVouched e cookie expected status more plaintext ne h =
      let (parts, h3, e3) = need_inv malformed (two_fields (fields status)) _ plaintext h in
      let (server_pub, h4, e4) =
        need_inv bad_server_pub (ephemeral_pub_from_base64 c parts.0) _ plaintext e3 in
      let (sig, h5, e5) = need_inv bad_signature_text (c.base64_decode parts.1) _ plaintext e4 in
      open_reply-IsVouched e cookie expected server_pub sig (cut b'\n' more) plaintext ne e5

  -- The invitee accepts a file only if the inviter vouches for it: the URL has a key hash, the key in
  -- the file has that hash, its signature on the server's half of the exchange and the cookie is valid,
  -- and the file was sealed under the key that the exchange gives.
  pub round_trip-IsVouched :
      (e : Ephemeral) (cookie expected reply : Text) (plaintext : Bytes)
      → expected ≢ []
      → round_trip c e cookie expected reply ≡ fetched plaintext
      → IsVouched e cookie expected plaintext
  unfolding round_trip
  round_trip-IsVouched e cookie expected reply plaintext ne h =
      let (first, h1, e1) = need_inv no_reply (cut b'\n' reply) _ plaintext h in
      let (status, h2, e2) =
        need_inv server_replied (strip_prefix (codes "OK ") (trim_eol first.0)) _ plaintext e1 in
      parse_encrypted_reply-IsVouched e cookie expected status first.1 plaintext ne e2
