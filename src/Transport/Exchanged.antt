-- ===== src/Transport/Exchanged.antt =====
-- A fetch between a server and an invitee that both keep to the protocol.
use gsnet.Common.{
  ◌≡◌, ◌≢◌, refl, sym, ap, ◌∙◌, List, [], ◌∷◌, ◌++◌, true, some, Text, text_eq_refl, codes, length,
  arith, Option-cases, inl, inr,
}
use gsnet.Strings.Space.{blank-is_space}
use gsnet.Strings.Cut.{Parts, cut, lacks, cut-append, strip_prefix}
use gsnet.Strings.Fields.{fields, IsWord, fields-cons, fields_last}
use gsnet.Strings.Kept.{plain-lacks}
use gsnet.Config.Rendered.{lacks-append}
use gsnet.Invite.Exchange.{
  Bytes, Crypto, Ephemeral, new_ephemeral, derive_key, ephemeral_pub_from_base64,
}
use gsnet.Transport.{Server, Answer, file, replied, trim_eol, sig_payload, handle_inbound}
use gsnet.Transport.Client.{
  Fetched, fetched, server_replied, no_reply, malformed, bad_server_pub, bad_signature_text, need,
  demand, two_fields, find_inviter_ed25519_pub, verify, check_inviter, open_reply,
  parse_encrypted_reply, round_trip, get_command_line,
}
use gsnet.Transport.Served.{
  IsSound, trim_eol-plain, trim_eol_last, pub_decodes, size_ne, signed_half, ok_line, ok_reply,
  serves,
}

module _ {S : Type 0} (c : Crypto) (srv : Server S) (laws : IsSound c) where
  -- The steps of the invitee, on what each has split off.
  by_status : Ephemeral → Text → Text → Text → Text → Fetched Bytes
  by_status e cookie expected more status =
      need server_replied (strip_prefix (codes "OK ") status)
        (λ rest. parse_encrypted_reply c e cookie expected rest more)

  by_first : Ephemeral → Text → Text → Parts → Fetched Bytes
  by_first e cookie expected parts =
      need no_reply parts (λ first. by_status e cookie expected first.1 (trim_eol first.0))

  by_fields : Ephemeral → Text → Text → Text → List Text → Fetched Bytes
  by_fields e cookie expected more fs = need malformed (two_fields fs) (λ parts.
      need bad_server_pub (ephemeral_pub_from_base64 c parts.0) (λ server_pub.
        need bad_signature_text (c.base64_decode parts.1)
          (λ sig. open_reply c e cookie expected server_pub sig (cut b'\n' more))))

  accepts_key :
      (es : Ephemeral) (cookie expected : Text) (body : Bytes)
      → find_inviter_ed25519_pub c body ≡ some (c.ed_public srv.ed_priv)
      → c.key_hash (c.ed_public srv.ed_priv) ≡ expected
      → check_inviter c cookie expected es.public (signed_half c srv laws es cookie) body
        ≡ fetched body
  unfolding check_inviter need demand verify
  accepts_key es cookie expected body found hashed =
      rw
        (
          found,
          hashed,
          laws.verifies srv.ed_priv (sig_payload c es.public cookie),
          laws.key_size srv.ed_priv,
        )
        (ground (arith, text_eq_refl expected))

  accepts_fields :
      (e es : Ephemeral) (cookie expected : Text) (body key ct : Bytes)
      → length es.public ≡ 32
      → derive_key c e es.public cookie ≡ some key
      → c.cipher_open key ct ≡ some body
      → ct ≢ []
      → find_inviter_ed25519_pub c body ≡ some (c.ed_public srv.ed_priv)
      → c.key_hash (c.ed_public srv.ed_priv) ≡ expected
      → by_fields e cookie expected
          (c.base64_encode ct ++ (b'\n' ∷ []))
          (c.base64_encode es.public ∷ c.base64_encode (signed_half c srv laws es cookie) ∷ [])
        ≡ fetched body
  unfolding by_fields open_reply need two_fields
  accepts_fields e es cookie expected body key ct size agreed opened ne found hashed =
      let ct_word = laws.word ct ne in
      rw
        (
          pub_decodes c srv laws es.public size,
          laws.decodes (signed_half c srv laws es cookie),
          cut-append b'\n' (c.base64_encode ct) []
              (plain-lacks (c.base64_encode ct) ct_word.plain_chars),
          trim_eol-plain (c.base64_encode ct) ct_word.plain_chars,
          laws.decodes ct,
          agreed,
          opened,
        )
        (accepts_key es cookie expected body found hashed)

  -- The invitee accepts that reply.
  accepts :
      (e es : Ephemeral) (cookie expected : Text) (body key ct : Bytes)
      → length es.public ≡ 32
      → derive_key c e es.public cookie ≡ some key
      → c.cipher_open key ct ≡ some body
      → ct ≢ []
      → find_inviter_ed25519_pub c body ≡ some (c.ed_public srv.ed_priv)
      → c.key_hash (c.ed_public srv.ed_priv) ≡ expected
      → round_trip c e cookie expected (ok_reply c srv laws es cookie ct) ≡ fetched body
  unfolding round_trip parse_encrypted_reply by_first by_status by_fields need strip_prefix
  accepts e es cookie expected body key ct size agreed opened ne found hashed =
      let es64 = c.base64_encode es.public in
      let sig64 = c.base64_encode (signed_half c srv laws es cookie) in
      let pub_word = laws.word es.public (size_ne c srv laws es.public size) in
      let sig_word =
        laws.word (signed_half c srv laws es cookie)
          (laws.signature_ne srv.ed_priv (sig_payload c es.public cookie)) in
      let ct_line = c.base64_encode ct ++ (b'\n' ∷ []) in
      let one_line : lacks b'\n' (ok_line c srv laws es cookie) ≡ true =
        lacks-append b'\n' es64 (b' ' ∷ sig64) (plain-lacks es64 pub_word.plain_chars)
          (plain-lacks sig64 sig_word.plain_chars) in
      let kept : trim_eol (ok_line c srv laws es cookie) ≡ ok_line c srv laws es cookie =
        trim_eol_last (codes "OK " ++ es64) sig64 b' ' sig_word in
      let parts : fields (es64 ++ (b' ' ∷ sig64)) ≡ es64 ∷ sig64 ∷ [] =
        fields-cons es64 b' ' sig64 pub_word blank-is_space
        ∙ ap (λ t. es64 ∷ t) (fields_last sig64 sig_word) in
      ap (by_first e cookie expected)
        (cut-append b'\n' (ok_line c srv laws es cookie) ct_line one_line)
      ∙ ap (by_status e cookie expected ct_line) kept
      ∙ ap (by_fields e cookie expected ct_line) parts
      ∙ accepts_fields e es cookie expected body key ct size agreed opened ne found hashed

  fresh_pair :
      (a : Bytes) (e : Ephemeral)
      → new_ephemeral c (some a) ≡ some e
      → (e.priv ≡ a) × (c.x25519 a c.basepoint ≡ some e.public)
  unfolding new_ephemeral
  fresh_pair a e h = elim (Option-cases (c.x25519 a c.basepoint)) [
    | inl bad ↦ cc (rw bad at h)
    | inr (p, good) ↦
        let same : ◌≡◌ {A = Ephemeral} (record { public = p; priv = a }) e = cc (rw good at h) in
        (
          ap (λ (x : Ephemeral). x.priv) (sym same),
          good ∙ ap (λ (x : Ephemeral). some x.public) same,
        )
  ]

  derived :
      (e : Ephemeral) (p : Bytes) (cookie : Text) (s : Bytes)
      → c.x25519 e.priv p ≡ some s
      → derive_key c e p cookie ≡ some (c.hkdf s (c.utf8 cookie) (c.utf8 (codes "gsnet-invite-v1")))
  unfolding derive_key
  derived e p cookie s h = rw h refl

  -- Both sides derive one key from the exchange, and it seals any file.
  both_derive :
      (a b : Bytes) (e es : Ephemeral) (cookie : Text) (body : Bytes)
      → new_ephemeral c (some a) ≡ some e
      → new_ephemeral c (some b) ≡ some es
      → (key : Bytes) × (derive_key c e es.public cookie ≡ some key)
        × (derive_key c es e.public cookie ≡ some key)
        × ((ct : Bytes) × (c.cipher_seal key body ≡ some ct))
  unfolding derive_key
  both_derive a b e es cookie body he hes =
      let (pa, xa) = fresh_pair a e he in
      let (pb, xb) = fresh_pair b es hes in
      let (shared, one, two) = laws.agree a b e.public es.public xa xb in
      (
        c.hkdf shared (c.utf8 cookie) (c.utf8 (codes "gsnet-invite-v1")),
        derived e es.public cookie _ (rw pa one),
        derived es e.public cookie _ (rw pb two),
        laws.seals shared _ _ body,
      )

  -- An invitee that asks for an invitation gets it. Where the server has a file for the cookie that names
  -- the server's own key, and the invitee expects the hash of that key, the reply of the server to the
  -- command of `InviteGet` is one that the invitee accepts, and it gives the file back. The state of the
  -- server is as before.
  pub fetch_round_trip :
      (s : S) (get : S → Text → Answer) (a b : Bytes) (e es : Ephemeral) (cookie expected : Text)
      (body : Bytes)
      → IsWord cookie
      → new_ephemeral c (some a) ≡ some e
      → new_ephemeral c (some b) ≡ some es
      → srv.invite_get ≡ some get
      → get s cookie ≡ file body
      → find_inviter_ed25519_pub c body ≡ some (c.ed_public srv.ed_priv)
      → c.key_hash (c.ed_public srv.ed_priv) ≡ expected
      → (reply : Text) × (handle_inbound c srv s (some b) (get_command_line c e cookie)
          ≡ (s, replied reply))
        × (round_trip c e cookie expected reply ≡ fetched body)
  fetch_round_trip s get a b e es cookie expected body word he hes installed answered found hashed =
      let (key, mine, theirs, (ct, sealed)) = both_derive a b e es cookie body he hes in
      let size = laws.public_size a e.public (fresh_pair a e he).1 in
      let size_s = laws.public_size b es.public (fresh_pair b es hes).1 in
      (
        ok_reply c srv laws es cookie ct,
        serves c srv laws s (some b) get e es cookie body key ct word size installed answered hes
            theirs sealed,
        accepts e es cookie expected body key ct size_s mine (laws.opens key body ct sealed)
            (λ n. laws.sealed_ne key body (sealed ∙ ap some n)) found hashed,
      )
