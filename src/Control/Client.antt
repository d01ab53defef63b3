-- ===== src/Control/Client.antt =====
-- internal/control/server.go: `Dial` and `ReadLine` of the client, on the text that the server sends, and
-- `runControlDump` of cmd/gsnet/main.go, which reads the answer to a request.
pub mod Answered
use gsnet.Common.{
  ℕ, ◌≡◌, List, [], ◌∷◌, ◌++◌, ◌||◌, ◌&&◌, not, Bool, true, false, Option, none, some, Text,
  text_eq, codes, ◌==◌, if◌then◌else◌,
}
use gsnet.Common.Int.{ℤ, pos, int_eq}
use gsnet.Strings.Decimal.{itoa}
use gsnet.Strings.Space.{trim_space}
use gsnet.Strings.Cut.{Parts, cut}
use gsnet.Control
use gsnet.Control.{Greeting, class_request, parse_greeting}

-- `fmt.Sscanf(s, "%d %d %d", &class, &code, &pid)`; `none` stands for an error.
abbrev pub Scan : Type 0
Scan = Text → Option (ℤ × ℤ × ℤ)

pub data Dialled : Type 0 where
  -- `ReadString` met the end.
  closed bad_ack auth_rejected : Dialled
  bad_greeting : Control.Error → Dialled
  -- `ServerName` and `ServerPID`, and what is still to be read.
  connected : Text → ℤ → Text → Dialled

-- The line that `Dial` sends: `"0 ^%s 0\n"`.
abbrev pub login : Text → Text
login cookie = codes "0 ^" ++ (cookie ++ (b' ' ∷ b'0' ∷ b'\n' ∷ []))

acked : Text → Text → Option (ℤ × ℤ × ℤ) → Dialled
acked name rest none = bad_ack
acked name rest (some (class, code, pid)) =
    if not (int_eq code (pos 0)) then auth_rejected else connected name pid rest

-- `strings.TrimRight(line, "\r\n")`
unfoldable pub trim_eol : Text → Text
trim_eol [] = []
trim_eol (c ∷ cs) =
    let rest = trim_eol cs in if (c == b'\r' || c == b'\n') && text_eq rest [] then [] else c ∷ rest

module _ (scan : Scan) where
  with_ack : Text → Parts → Dialled
  unfolding acked trim_space
  with_ack name none = closed
  with_ack name (some (ack, rest)) = acked name rest (scan (trim_space ack))

  with_greeting : Text → Control.Result Greeting → Dialled
  unfolding with_ack cut
  with_greeting more (Control.refused e) = bad_greeting e
  with_greeting more (Control.read g) = with_ack g.name (cut b'\n' more)

  dialled : Parts → Dialled
  unfolding with_greeting parse_greeting trim_space
  dialled none = closed
  dialled (some (greet, more)) = with_greeting more (parse_greeting (trim_space greet))

  -- `Dial`, on all that the server sends.
  unfoldable pub dial : Text → Dialled
  unfolding dialled cut
  dial input = dialled (cut b'\n' input)

-- `fmt.Sprintf("%d %d", control.ClassRequest, req)`
unfoldable pub terminator : ℤ → Text
unfolding itoa
terminator t = itoa class_request ++ (b' ' ∷ itoa t)

-- The loop of `runControlDump` over the lines that come: what it prints, and whether it reaches the
-- terminator. Where it does not, it waits for a line.
unfoldable pub read_dump : Text → List Text → List Text × Bool
unfolding trim_eol
read_dump end [] = ([], false)
read_dump end (raw ∷ raws) =
    let line = trim_eol raw in
    let (printed, ended) = read_dump end raws in
    if text_eq line end then ([], true) else (line ∷ printed, ended)
