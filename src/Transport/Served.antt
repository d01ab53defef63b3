-- ===== src/Transport/Served.antt =====
-- What is documented of the primitives, and the server's side of a fetch under it.
use gsnet.Common.{
  ℕ, ◌≡◌, ◌≢◌, refl, sym, ap, ◌∙◌, List, [], ◌∷◌, ◌++◌, true, Option, some, Text, text_eq,
  text_eq_iff, codes, length, if◌then◌else◌, arith,
}
use mathlib.Core.List.{append_assoc}
use gsnet.Strings.Space.{newline-is_space, cr-is_space, blank-is_space}
use gsnet.Strings.Cut.{ended_lines, lacks, cut-append, strip_prefix}
use gsnet.Strings.Fields.{fields, plain, IsWord, fields-cons, fields_last}
use gsnet.Strings.Kept.{plain-lacks}
use gsnet.Config.Rendered.{lacks-append}
use gsnet.Invite.Exchange.{
  Bytes, Crypto, Ephemeral, new_ephemeral, derive_key, ephemeral_pub_from_base64,
}
use gsnet.Transport.{
  Server, Answer, file, Outcome, replied, gossip, trim_eol, sig_payload, handle_inbound,
  on_first_line, get_command, handle_invite2_get, get_fields, get_with, answer_reply,
  encrypt_and_reply, ephemeral_reply, keyed_reply, sealed_reply,
}
use gsnet.Transport.Client.{get_command_line}

-- What is documented of the primitives.
pub record IsSound (c : Crypto) : Type 0 where
  -- Both sides of an exchange get the same secret, and a public key has 32 bytes.
  pub agree :
      (a b p q : Bytes)
      → c.x25519 a c.basepoint ≡ some p
      → c.x25519 b c.basepoint ≡ some q
      → (s : Bytes) × (c.x25519 a q ≡ some s) × (c.x25519 b p ≡ some s)
  pub public_size : (a p : Bytes) → c.x25519 a c.basepoint ≡ some p → length p ≡ 32
  pub seals : (s t i m : Bytes) → (ct : Bytes) × (c.cipher_seal (c.hkdf s t i) m ≡ some ct)
  pub opens : (k m ct : Bytes) → c.cipher_seal k m ≡ some ct → c.cipher_open k ct ≡ some m
  pub decodes : (b : Bytes) → c.base64_decode (c.base64_encode b) ≡ some b
  -- The text of some bytes is one word.
  pub word : (b : Bytes) → b ≢ [] → IsWord (c.base64_encode b)
  pub sealed_ne : (k m : Bytes) → c.cipher_seal k m ≢ some []
  pub verifies : (k m : Bytes) → c.ed_verify (c.ed_public k) m (c.ed_sign k m) ≡ true
  pub signature_ne : (k m : Bytes) → c.ed_sign k m ≢ []
  pub key_size : (k : Bytes) → length (c.ed_public k) ≡ 32

pub trim_eol-plain : (w : Text) → plain w ≡ true → trim_eol w ≡ w
unfolding trim_eol
trim_eol-plain [] h = refl
trim_eol-plain (x ∷ w) h = ground (arith, trim_eol-plain w, newline-is_space, cr-is_space)

ne-append : (a w : Text) → w ≢ [] → a ++ w ≢ []
ne-append [] w h = h
ne-append (x ∷ a) w h = λ e. cc e

trim_eol_word : (a w : Text) → IsWord w → trim_eol (a ++ w) ≡ a ++ w
unfolding trim_eol
trim_eol_word [] w h = trim_eol-plain w h.plain_chars
trim_eol_word (x ∷ a) w h =
    ground (arith, trim_eol_word a w h, ne-append a w h.ne, text_eq_iff (a ++ w) [])

pub trim_eol_last : (a w : Text) (x : ℕ) → IsWord w → trim_eol (a ++ (x ∷ w)) ≡ a ++ (x ∷ w)
trim_eol_last a w x h =
    ap trim_eol (sym (append_assoc a (x ∷ []) w))
    ∙ trim_eol_word (a ++ (x ∷ [])) w h
    ∙ append_assoc a (x ∷ []) w

module _ {S : Type 0} (c : Crypto) (srv : Server S) (laws : IsSound c) where
  -- The public key travels as one word.
  pub pub_decodes :
      (p : Bytes) → length p ≡ 32 → ephemeral_pub_from_base64 c (c.base64_encode p) ≡ some p
  unfolding ephemeral_pub_from_base64
  pub_decodes p h = rw (laws.decodes p) (ground arith)

  pub size_ne : (p : Bytes) → length p ≡ 32 → p ≢ []
  size_ne [] h = absurd (ground arith)
  size_ne (x ∷ p) h = λ e. cc e

  abbrev pub signed_half : Ephemeral → Text → Bytes
  signed_half es cookie = c.ed_sign srv.ed_priv (sig_payload c es.public cookie)

  abbrev pub ok_line : Ephemeral → Text → Text
  ok_line es cookie =
      codes "OK " ++ (c.base64_encode es.public ++ (b' ' ∷ c.base64_encode (signed_half es cookie)))

  abbrev pub ok_reply : Ephemeral → Text → Bytes → Text
  ok_reply es cookie ct = ok_line es cookie ++ (b'\n' ∷ (c.base64_encode ct ++ (b'\n' ∷ [])))

  -- What the server does with a command line that is trimmed.
  by_command : S → Option Bytes → Text → S × Outcome
  by_command s seed command =
      if text_eq command (codes "GOSSIP")
      then (s, gossip [])
      else get_command c srv s seed command [] (strip_prefix (codes "INVITE2 GET ") command)

  answers :
      (s : S) (seed : Option Bytes) (get : S → Text → Answer) (e es : Ephemeral) (cookie : Text)
      (body key ct : Bytes)
      → length e.public ≡ 32
      → srv.invite_get ≡ some get
      → get s cookie ≡ file body
      → new_ephemeral c seed ≡ some es
      → derive_key c es e.public cookie ≡ some key
      → c.cipher_seal key body ≡ some ct
      → get_fields c srv s seed (cookie ∷ c.base64_encode e.public ∷ [])
        ≡ replied (ok_reply es cookie ct)
  unfolding get_fields get_with answer_reply encrypt_and_reply ephemeral_reply keyed_reply
      sealed_reply
  answers s seed get e es cookie body key ct size installed answered fresh agreed sealed =
      rw (installed, pub_decodes e.public size, answered, fresh, agreed, sealed)
        (ap (λ t. replied (codes "OK " ++ t))
          (sym (
            append_assoc (c.base64_encode es.public)
              (b' ' ∷ c.base64_encode (signed_half es cookie))
              (b'\n' ∷ (c.base64_encode ct ++ (b'\n' ∷ []))))))

  -- The server answers the command that the invitee writes.
  pub serves :
      (s : S) (seed : Option Bytes) (get : S → Text → Answer) (e es : Ephemeral) (cookie : Text)
      (body key ct : Bytes)
      → IsWord cookie
      → length e.public ≡ 32
      → srv.invite_get ≡ some get
      → get s cookie ≡ file body
      → new_ephemeral c seed ≡ some es
      → derive_key c es e.public cookie ≡ some key
      → c.cipher_seal key body ≡ some ct
      → handle_inbound c srv s seed (get_command_line c e cookie)
        ≡ (s, replied (ok_reply es cookie ct))
  unfolding handle_inbound on_first_line get_command handle_invite2_get by_command ended_lines
      text_eq strip_prefix
  serves s seed get e es cookie body key ct word size installed answered fresh agreed sealed =
      let b64 = c.base64_encode e.public in
      let pub_word = laws.word e.public (size_ne e.public size) in
      let command = codes "INVITE2 GET " ++ (cookie ++ (b' ' ∷ b64)) in
      let ended : get_command_line c e cookie ≡ command ++ (b'\n' ∷ []) =
        ap (λ t. codes "INVITE2 GET " ++ t) (sym (append_assoc cookie (b' ' ∷ b64) (b'\n' ∷ []))) in
      let one_line : lacks b'\n' command ≡ true =
        lacks-append b'\n' cookie (b' ' ∷ b64) (plain-lacks cookie word.plain_chars)
          (plain-lacks b64 pub_word.plain_chars) in
      let kept : trim_eol command ≡ command =
        trim_eol_last (codes "INVITE2 GET " ++ cookie) b64 b' ' pub_word in
      let parts : fields (cookie ++ (b' ' ∷ b64)) ≡ cookie ∷ b64 ∷ [] =
        fields-cons cookie b' ' b64 word blank-is_space
        ∙ ap (λ t. cookie ∷ t) (fields_last b64 pub_word) in
      ap (handle_inbound c srv s seed) ended
      ∙ ap (on_first_line c srv s seed) (cut-append b'\n' command [] one_line)
      ∙ ap (by_command s seed) kept
      ∙ ap (λ (fs : List Text). (s, get_fields c srv s seed fs)) parts
      ∙ ap (λ (o : Outcome). (s, o))
          (answers s seed get e es cookie body key ct size installed answered fresh agreed sealed)
