-- ===== src/Control/Client/Answered.antt =====
-- The client against the server: who gets in, and that an answer is read to its end.
use gsnet.Common.{
  ◌≡◌, ◌≢◌, ◌⊎◌, refl, sym, ap, ◌∙◌, [], ◌∷◌, ◌++◌, true, false, Option, some, Text, text_eq, codes,
  arith, inl, inr,
}
use mathlib.Core.List.{append_assoc, append-nil}
use gsnet.Common.Int.{ℤ, pos}
use gsnet.Strings.Decimal.{itoa, digits, IsInt}
use gsnet.Strings.Space.{is_space, trim_space, trim_space_id, IsTrimmed, ends_plain-append}
use gsnet.Strings.Fields.{IsWord}
use gsnet.Strings.Kept.{plain-lacks, plain-IsTrimmed}
use gsnet.Strings.Cut.{cut, cut-append, lacks, ended_lines}
use gsnet.Config.Rendered.{lacks-append, ne-append}
use gsnet.Control.{
  Message, Greeting, greeting_line, encode_greeting, class_request, message_line, encode_message,
}
use gsnet.Control.Lines.{
  parse-encode_greeting, itoa-IsWord, decode-encode_message, message_line-IsTrimmed,
  message_line-lacks,
}
use gsnet.Control.Server.{
  Server, greeting, ack, serve_lines, handle, on_line, on_decoded, on_message, handled,
  error_if_any,
}
use gsnet.Control.Server.Login.{Holds, handle_guarded, handle-login, login_line}
use gsnet.Control.Client.{Scan, connected, closed, acked, with_ack, with_greeting, dialled, dial}

-- `Sscanf` reads the line of the acknowledgement.
abbrev pub Scans : Scan → ℤ → Type 0
Scans scan pid = scan (codes "4 0 " ++ itoa pid) ≡ some (pos 4, pos 0, pid)

pub ended_lines-cons :
    (s word rest : Text)
    → lacks b'\n' s ≡ true
    → ended_lines word (s ++ (b'\n' ∷ rest)) ≡ (word ++ s) ∷ ended_lines [] rest
unfolding ended_lines
ended_lines-cons [] word rest h = rw append-nil refl
ended_lines-cons (c ∷ s) word rest h =
    ground (arith, ended_lines-cons s (word ++ c ∷ []) rest, append_assoc word (c ∷ []) s)

ne_text : (s : Text) → s ≢ [] → text_eq s [] ≡ false
unfolding text_eq
ne_text [] h = absurd (h refl)
ne_text (c ∷ s) h = refl

message_line-ne : (t : ℤ) → message_line t [] ≢ []
unfolding message_line
message_line-ne t = ne-append (itoa class_request) _ (itoa-IsWord class_request).ne

module _ {S : Type 0} (srv : Server S) where
  abbrev hello : Greeting
  hello = record { name = srv.node_name; major = pos 1; minor = pos 0 }

  greeting-line : greeting srv ≡ greeting_line hello ++ (b'\n' ∷ [])
  unfolding greeting encode_greeting
  greeting-line = refl

  hello-IsTrimmed : IsTrimmed (greeting_line hello)
  unfolding greeting_line is_space itoa digits
  hello-IsTrimmed = record {
    starts = refl;
    ends =
        ends_plain-append (b'0' ∷ b' ' ∷ srv.node_name) (b' ' ∷ b'1' ∷ b'.' ∷ b'0' ∷ [])
          (λ e. cc e);
  }

  hello-lacks : IsWord srv.node_name → lacks b'\n' (greeting_line hello) ≡ true
  unfolding greeting_line itoa digits
  hello-lacks h =
      lacks-append b'\n' (b'0' ∷ b' ' ∷ srv.node_name) (b' ' ∷ b'1' ∷ b'.' ∷ b'0' ∷ [])
        (ground (arith, plain-lacks srv.node_name h.plain_chars)) refl

  ack-IsTrimmed : IsTrimmed (codes "4 0 " ++ itoa srv.pid)
  unfolding is_space
  ack-IsTrimmed = record {
    starts = refl;
    ends =
        ends_plain-append (codes "4 0 ") (itoa srv.pid) (itoa-IsWord srv.pid).ne
        ∙ (plain-IsTrimmed (itoa srv.pid) (itoa-IsWord srv.pid).plain_chars).ends;
  }

  ack-lacks : lacks b'\n' (codes "4 0 " ++ itoa srv.pid) ≡ true
  ack-lacks =
      lacks-append b'\n' (codes "4 0 ") (itoa srv.pid) refl
        (plain-lacks (itoa srv.pid) (itoa-IsWord srv.pid).plain_chars)

  -- A request without arguments reaches the handler, and what that writes is the answer.
  pub serve_request :
      (s : S) (t : ℤ) (h : S → Message → S × (Text × Option Text))
      → IsInt t
      → srv.handler ≡ some h
      → serve_lines srv s (ended_lines [] (encode_message t [])) ≡ (
          let (u, (out, e)) = h s (record { class = class_request; kind = t; args = [] }) in
          (u, (out ++ error_if_any t e) ++ []))
  unfolding serve_lines on_line on_decoded on_message handled encode_message ended_lines
  serve_request s t h number handler =
      let line = message_line t [] in
      let split : ended_lines [] (line ++ b'\n' ∷ []) ≡ line ∷ [] =
        ended_lines-cons line [] [] (message_line-lacks t) in
      let longer = ne_text line (message_line-ne t) in
      rw
        (
          split,
          trim_space_id line (message_line-IsTrimmed t),
          longer,
          decode-encode_message t [] number tt,
          handler,
        )
        refl

  module _ (scan : Scan) where
    dial_greeted :
        (more : Text)
        → IsWord srv.node_name
        → dial scan (greeting srv ++ more) ≡ with_ack scan srv.node_name (cut b'\n' more)
    unfolding dial dialled with_greeting
    dial_greeted more h =
        let first : cut b'\n' (greeting srv ++ more) ≡ some (greeting_line hello, more) =
          ap (cut b'\n') (
            ap (λ g. g ++ more) greeting-line
            ∙ append_assoc (greeting_line hello) (b'\n' ∷ []) more)
          ∙ cut-append b'\n' (greeting_line hello) more (hello-lacks h) in
        rw
          (
            first,
            trim_space_id (greeting_line hello) hello-IsTrimmed,
            parse-encode_greeting hello h (omega arith) (omega arith),
          )
          refl

    with_ack_lem :
        (rest : Text)
        → Scans scan srv.pid
        → with_ack scan srv.node_name (cut b'\n' (ack srv ++ rest))
          ≡ connected srv.node_name srv.pid rest
    unfolding with_ack acked
    with_ack_lem rest h =
        let line = codes "4 0 " ++ itoa srv.pid in
        let first : cut b'\n' (ack srv ++ rest) ≡ some (line, rest) =
          ap (cut b'\n') (append_assoc line (b'\n' ∷ []) rest)
          ∙ cut-append b'\n' line rest ack-lacks in
        rw (first, trim_space_id line ack-IsTrimmed, h) refl

    -- A client of the program that has the cookie is connected, with the name and the number of the
    -- server, and what it has still to read is the server's answers to the requests that it sends.
    pub dial-handle :
        (s : S) (requests : Text)
        → IsWord srv.node_name
        → IsWord srv.cookie
        → Scans scan srv.pid
        → dial scan (handle srv s (login_line srv srv.cookie ++ (b'\n' ∷ requests))).1
          ≡ connected srv.node_name srv.pid (serve_lines srv s (ended_lines [] requests)).1
    dial-handle s requests name cookie scans =
        let answers = (serve_lines srv s (ended_lines [] requests)).1 in
        rw (handle-login srv s requests cookie)
          (dial_greeted (ack srv ++ answers) name ∙ with_ack_lem answers scans)

    -- Whatever a client sends that does not hold the cookie in its first line, it is not connected: it
    -- reads the greeting and meets the end.
    dial_stranger :
        (s : S) (input : Text)
        → IsWord srv.node_name
        → ((first more : Text) × (cut b'\n' input ≡ some (first, more))
            × Holds (trim_space first) srv.cookie)
          ⊎ (dial scan (handle srv s input).1 ≡ closed)
    unfolding with_ack cut
    dial_stranger s input name = elim (handle_guarded srv s input) [
      | inl known ↦ inl known
      | inr out ↦
          inr (rw out (ap (dial scan) (sym (append-nil (greeting srv))) ∙ dial_greeted [] name))
    ]
