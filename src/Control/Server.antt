-- ===== src/Control/Server.antt =====
-- internal/control/server.go: a connection to the control socket, as the text that the client sends
-- before it closes.
pub mod Login
use gsnet.Common.{
  ℕ, ◌≡◌, List, [], ◌∷◌, ◌++◌, ◌&&◌, not, Bool, true, false, Option, none, some, Text, text_eq,
  codes, ◌==◌, if◌then◌else◌,
}
use gsnet.Common.Int.{ℤ, pos, int_eq}
use gsnet.Strings.Decimal.{itoa}
use gsnet.Strings.Space.{trim_space}
use gsnet.Strings.Fields.{fields}
use gsnet.Strings.Cut.{Parts, cut, ended_lines}
use gsnet.Control
use gsnet.Control.{Message, Error, class_request, decode_message, Greeting, encode_greeting}

-- The server, where S is the state behind its handler, and the texts that errors print as. A handler
-- gives what it writes and the text of its error, if it has one.
pub record Server (S : Type 0) : Type 0 where
  pub node_name : Text
  pub cookie : Text
  pub pid : ℤ
  pub handler : Option (S → Message → S × (Text × Option Text))
  pub error_text : Error → Text

abbrev line : Text → Text
line s = s ++ (b'\n' ∷ [])

-- `"%d %d %s\n"` with the class of requests.
unfoldable pub reply_line : ℤ → Text → Text
reply_line t s = line (itoa class_request ++ (b' ' ∷ (itoa t ++ (b' ' ∷ s))))

-- `"%d -1 %s\n"`
unfoldable pub error_line : Text → Text
error_line s = line (itoa class_request ++ (codes " -1 " ++ s))

unfoldable pub error_if_any : ℤ → Option Text → Text
unfolding reply_line
error_if_any t none = []
error_if_any t (some e) = reply_line t e

cookie_in : Text → List Text → Bool
cookie_in cookie [] = false
cookie_in cookie (x ∷ []) = false
cookie_in cookie (x ∷ [] ∷ fs) = false
cookie_in cookie (x ∷ (c ∷ cs) ∷ fs) = text_eq x (codes "0") && c == b'^' && text_eq cs cookie

module _ {S : Type 0} (srv : Server S) where
  -- `authenticate`
  unfoldable pub authenticate : Text → Bool
  unfolding cookie_in
  authenticate s = cookie_in srv.cookie (fields s)

  unfoldable pub handled : ℤ → S × (Text × Option Text) → S × Text
  unfolding error_if_any
  handled t (s, (out, e)) = (s, out ++ error_if_any t e)

  unfoldable pub on_message : S → Message → S × Text
  unfolding handled reply_line error_line
  on_message s m =
      if not (int_eq m.class class_request)
      then (s, error_line (codes "bad class"))
      else elim srv.handler [
        | none ↦ (s, reply_line m.kind (codes "0"))
        | some h ↦ handled m.kind (h s m)
      ]

  unfoldable pub on_decoded : S → Control.Result Message → S × Text
  unfolding on_message error_line
  on_decoded s (Control.refused e) = (s, error_line (srv.error_text e))
  on_decoded s (Control.read m) = on_message s m

  -- One turn of the loop of `handle`, with what it writes.
  unfoldable pub on_line : S → Text → S × Text
  unfolding on_decoded decode_message trim_space
  on_line s raw =
      let l = trim_space raw in if text_eq l [] then (s, []) else on_decoded s (decode_message l)

  -- The loop of `handle`.
  unfoldable pub serve_lines : S → List Text → S × Text
  unfolding on_line
  serve_lines s [] = (s, [])
  serve_lines s (l ∷ ls) =
      let (t, out) = on_line s l in let (u, more) = serve_lines t ls in (u, out ++ more)

  unfoldable pub greeting : Text
  unfolding encode_greeting
  greeting = encode_greeting (record { name = srv.node_name; major = pos 1; minor = pos 0 })

  abbrev pub ack : Text
  ack = line (codes "4 0 " ++ itoa srv.pid)

  written_after : Text → S × Text → S × Text
  written_after out (s, more) = (s, out ++ more)

  unfoldable pub logged_in : S → Parts → S × Text
  unfolding authenticate serve_lines written_after trim_space ended_lines
  logged_in s none = (s, [])
  logged_in s (some (first, more)) =
      if authenticate (trim_space first)
      then written_after ack (serve_lines s (ended_lines [] more))
      else (s, [])

  -- `handle`: the state behind the handler, and all that the server writes.
  unfoldable pub handle : S → Text → S × Text
  unfolding logged_in written_after cut greeting
  handle s input = written_after greeting (logged_in s (cut b'\n' input))
