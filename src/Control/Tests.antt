-- ===== src/Control/Tests.antt =====
-- A message with two arguments and a greeting.
use gsnet.Common.{
  ℕ, suc, ◌⊎◌, ◌++◌, some, none, Text, ◌≡◌, refl, [], ◌∷◌, codes, arith, text_eq, if◌then◌else◌,
}
use gsnet.Strings.Space.{trim_space}
use gsnet.Strings.Cut.{cut, ended_lines}
use gsnet.Control.Server.{Server, greeting, serve_lines, handle}
use gsnet.Control.Server.Login.{Holds, login_line, handle_guarded}
use gsnet.Common.Int.{pos}
use gsnet.Strings.Space.{is_space}
use gsnet.Strings.Fields.{IsWord}
use gsnet.Control.{class_request, read, message_line, decode_message}
use gsnet.Control.Client.{Scan, connected, dial}
use gsnet.Control.Client.Answered.{Scans, dial-handle}
use gsnet.Strings.Decimal.{itoa}
use gsnet.Control.Lines.{decode-encode_message}

ab-IsWord : IsWord (codes "ab")
unfolding is_space
ab-IsWord = record { ne = λ e. cc e; plain_chars = refl }

decode-encode_message_example :
    decode_message (message_line (pos 9) (codes "ab" ∷ codes "ab" ∷ []))
    ≡ read (record { class = class_request; kind = pos 9; args = codes "ab" ∷ codes "ab" ∷ [] })
decode-encode_message_example =
    decode-encode_message (pos 9) (codes "ab" ∷ codes "ab" ∷ []) (omega arith)
      (ab-IsWord, (ab-IsWord, tt))

abbrev counter : Server ℕ
counter = record {
  node_name = codes "alpha";
  cookie = codes "secret";
  pid = pos 7;
  handler = some (λ n m. (suc n, (codes "18 4\n", none)));
  error_text = λ e. codes "bad";
}

cookie-IsWord : IsWord (codes "secret")
unfolding is_space
cookie-IsWord = record { ne = λ e. cc e; plain_chars = refl }

abbrev knock : Text
knock = codes "0 ^guess 0\n18 1\n"

handle_guarded_example :
    ((first more : Text) × (cut b'\n' knock ≡ some (first, more))
      × Holds (trim_space first) (codes "secret"))
    ⊎ (handle counter 0 knock ≡ (0, greeting counter))
handle_guarded_example = handle_guarded counter 0 knock

alpha-IsWord : IsWord (codes "alpha")
unfolding is_space
alpha-IsWord = record { ne = λ e. cc e; plain_chars = refl }

-- `Sscanf` on one line.
abbrev sscanf : Scan
sscanf s = if text_eq s (codes "4 0 7") then some (pos 4, pos 0, pos 7) else none

sscanf-Scans : Scans sscanf (pos 7)
unfolding text_eq itoa
sscanf-Scans = refl

dial-handle_example :
    dial sscanf
      (handle counter 0 (login_line counter (codes "secret") ++ (b'\n' ∷ codes "18 4\n"))).1
    ≡ connected (codes "alpha") (pos 7) (serve_lines counter 0 (ended_lines [] (codes "18 4\n"))).1
dial-handle_example =
    dial-handle counter sscanf 0 (codes "18 4\n") alpha-IsWord cookie-IsWord sscanf-Scans
