-- ===== src/Control/Lines.antt =====
-- Messages and greetings are read back from their lines.
use gsnet.Common.{
  ◌+◌, ◌≡◌, ◌≢◌, refl, ap, ◌∙◌, List, [], ◌∷◌, ◌++◌, true, some, none, sym, Text, text_eq, arith,
  all,
}
use gsnet.Common.Int.{ℤ, pos, negsuc}
use gsnet.Strings.Decimal.{
  itoa, atoi, digits, is_digit, all-digits, digits-ne-nil, IsInt, atoi-itoa,
}
use gsnet.Strings.Space.{
  is_space, blank-is_space, newline-is_space, trim_space, trim_space-concat, IsTrimmed,
  starts_plain-append, ends_plain-append,
}
use gsnet.Strings.Kept.{plain-IsTrimmed, plain-lacks}
use gsnet.Config.Rendered.{lacks-append}
use gsnet.Strings.Fields.{fields, plain, IsWord, fields-cons, fields_last}
use gsnet.Strings.Cut.{cut, lacks, cut-append, cut-lacks}
use mathlib.Core.List.{append-nil, append_assoc}
use gsnet.Control.{
  class_request, Greeting, read, spaced, message_line, message_of, message_of_fields,
  decode_message, greeting_line, numbered, versioned, greeting_of_fields, parse_greeting, PidFile,
  encode_pid_file, parse_pid_file, first_line, pid_file_of_fields, pid_file_of,
}

plain-digits : (s : Text) → all is_digit s ≡ true → plain s ≡ true
unfolding is_space
plain-digits [] h = refl
plain-digits (c ∷ s) h = ground (arith, plain-digits s)

pub itoa-IsWord : (z : ℤ) → IsWord (itoa z)
unfolding itoa is_space
itoa-IsWord (pos n) = record {
  ne = digits-ne-nil n;
  plain_chars = plain-digits (digits n) (all-digits n);
}
itoa-IsWord (negsuc n) = record {
  ne = λ e. cc e;
  plain_chars = ground (arith, plain-digits (digits (n + 1)) (all-digits (n + 1)));
}

abbrev pub AllWords : List Text → Type 0
AllWords [] = Unit
AllWords (w ∷ ws) = IsWord w × AllWords ws

fields-spaced :
    (w : Text) (args : List Text) → IsWord w → AllWords args → fields (w ++ spaced args) ≡ w ∷ args
unfolding spaced
fields-spaced w [] h k = ap fields (append-nil w) ∙ fields_last w h
fields-spaced w (a ∷ args) h k =
    fields-cons w b' ' (a ++ spaced args) h blank-is_space
    ∙ ap (◌∷◌ w) (fields-spaced a args k.0 k.1)

-- `DecodeMessage` reads back the line of `EncodeMessage`, where the type is an `int` and each argument
-- is some characters without a space.
pub decode-encode_message :
    (t : ℤ) (args : List Text)
    → IsInt t
    → AllWords args
    → decode_message (message_line t args)
      ≡ read (record { class = class_request; kind = t; args = args })
unfolding decode_message message_line message_of_fields
decode-encode_message t args h k =
    let split : fields (message_line t args) ≡ itoa class_request ∷ itoa t ∷ args =
      fields-cons (itoa class_request) b' ' (itoa t ++ spaced args) (itoa-IsWord class_request)
        blank-is_space
      ∙ ap (◌∷◌ (itoa class_request)) (fields-spaced (itoa t) args (itoa-IsWord t) k) in
    ap message_of_fields split
    ∙ ap (λ c. message_of c (atoi (itoa t)) args) (atoi-itoa class_request (omega arith))
    ∙ ap (λ n. message_of (some class_request) n args) (atoi-itoa t h)

no_point-digits : (s : Text) → all is_digit s ≡ true → lacks b'.' s ≡ true
no_point-digits [] h = refl
no_point-digits (c ∷ s) h = ground (arith, no_point-digits s)

no_point-itoa : (z : ℤ) → lacks b'.' (itoa z) ≡ true
unfolding itoa
no_point-itoa (pos n) = no_point-digits (digits n) (all-digits n)
no_point-itoa (negsuc n) = no_point-digits (digits (n + 1)) (all-digits (n + 1))

plain-append : (a b : Text) → plain a ≡ true → plain b ≡ true → plain (a ++ b) ≡ true
plain-append [] b h k = k
plain-append (c ∷ a) b h k = ground (arith, plain-append a b)

ne-append : (a b : Text) → a ≢ [] → a ++ b ≢ []
ne-append [] b h = absurd (h refl)
ne-append (c ∷ a) b h = λ e. cc e

zero-IsWord : IsWord (b'0' ∷ [])
unfolding is_space
zero-IsWord = record { ne = λ e. cc e; plain_chars = refl }

version-IsWord : (major minor : ℤ) → IsWord (itoa major ++ (b'.' ∷ itoa minor))
unfolding is_space
version-IsWord major minor = record {
  ne = ne-append (itoa major) (b'.' ∷ itoa minor) (itoa-IsWord major).ne;
  plain_chars =
      plain-append (itoa major) (b'.' ∷ itoa minor) (itoa-IsWord major).plain_chars
        (ground (arith, (itoa-IsWord minor).plain_chars));
}

-- `ParseGreeting` reads back the line of `Greeting.Encode`, where the name is some characters without a
-- space and the two numbers are `int` values.
pub parse-encode_greeting :
    (g : Greeting)
    → IsWord g.name
    → IsInt g.major
    → IsInt g.minor
    → parse_greeting (greeting_line g) ≡ read g
unfolding parse_greeting greeting_line greeting_of_fields versioned text_eq
parse-encode_greeting g w h k =
    let version = itoa g.major ++ (b'.' ∷ itoa g.minor) in
    let split : fields (greeting_line g) ≡ (b'0' ∷ []) ∷ g.name ∷ version ∷ [] =
      fields-cons (b'0' ∷ []) b' ' (g.name ++ (b' ' ∷ version)) zero-IsWord blank-is_space
      ∙ ap (◌∷◌ (b'0' ∷ [])) (
          fields-cons g.name b' ' version w blank-is_space
          ∙ ap (◌∷◌ g.name) (fields_last version (version-IsWord g.major g.minor))) in
    ap greeting_of_fields split
    ∙ ap (versioned g.name) (cut-append b'.' (itoa g.major) (itoa g.minor) (no_point-itoa g.major))
    ∙ ap (λ n. numbered g.name n (atoi (itoa g.minor))) (atoi-itoa g.major h)
    ∙ ap (numbered g.name (some g.major)) (atoi-itoa g.minor k)

-- `ParsePIDFile` reads back what `PIDFile.Encode` writes, where the number is an `int` and the cookie is
-- some characters without a space.
pub parse-encode_pid_file :
    (p : PidFile) → IsInt p.pid → IsWord p.cookie → parse_pid_file (encode_pid_file p) ≡ read p
unfolding parse_pid_file encode_pid_file first_line pid_file_of_fields pid_file_of
parse-encode_pid_file p h w =
    let number = itoa-IsWord p.pid in
    let line = itoa p.pid ++ (b' ' ∷ p.cookie) in
    let trimmed : IsTrimmed line = record {
      starts =
          starts_plain-append (itoa p.pid) (b' ' ∷ p.cookie) number.ne
          ∙ (plain-IsTrimmed (itoa p.pid) number.plain_chars).starts;
      ends =
          ends_plain-append (itoa p.pid) (b' ' ∷ p.cookie) (λ e. cc e)
          ∙ ends_plain-append (b' ' ∷ []) p.cookie w.ne
          ∙ (plain-IsTrimmed p.cookie w.plain_chars).ends;
    } in
    let whole : trim_space (encode_pid_file p) ≡ line =
      ap trim_space (sym (append_assoc (itoa p.pid) (b' ' ∷ p.cookie) (b'\n' ∷ [])))
      ∙ trim_space-concat line b'\n' trimmed (ne-append (itoa p.pid) (b' ' ∷ p.cookie) number.ne)
          newline-is_space in
    let one_line : cut b'\n' line ≡ none = cut-lacks b'\n' line (
      lacks-append b'\n' (itoa p.pid) (b' ' ∷ p.cookie)
        (plain-lacks (itoa p.pid) number.plain_chars)
        (ground (arith, plain-lacks p.cookie w.plain_chars))) in
    let split : fields line ≡ itoa p.pid ∷ p.cookie ∷ [] =
      fields-cons (itoa p.pid) b' ' p.cookie number blank-is_space
      ∙ ap (◌∷◌ (itoa p.pid)) (fields_last p.cookie w) in
    rw (whole, one_line, split, atoi-itoa p.pid h) refl

-- The line of a request without arguments is trimmed.
pub message_line-IsTrimmed : (t : ℤ) → IsTrimmed (message_line t [])
unfolding message_line spaced
message_line-IsTrimmed t =
    let class = itoa-IsWord class_request in
    let kind = itoa-IsWord t in
    record {
      starts =
          starts_plain-append (itoa class_request) _ class.ne
          ∙ (plain-IsTrimmed (itoa class_request) class.plain_chars).starts;
      ends =
          ends_plain-append (itoa class_request) (b' ' ∷ (itoa t ++ [])) (λ e. cc e)
          ∙ rw append-nil (
              ends_plain-append (b' ' ∷ []) (itoa t) kind.ne
              ∙ (plain-IsTrimmed (itoa t) kind.plain_chars).ends);
    }

pub message_line-lacks : (t : ℤ) → lacks b'\n' (message_line t []) ≡ true
unfolding message_line spaced
message_line-lacks t =
    lacks-append b'\n' (itoa class_request) (b' ' ∷ (itoa t ++ []))
      (plain-lacks (itoa class_request) (itoa-IsWord class_request).plain_chars)
      (rw append-nil (plain-lacks (itoa t) (itoa-IsWord t).plain_chars))
