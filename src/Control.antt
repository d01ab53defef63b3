-- ===== src/Control.antt =====
-- internal/control/protocol.go: the lines of the control protocol. A text is the list of its code points.
pub mod Lines
pub mod Server
pub mod Client
mod Tests
use gsnet.Common.{List, [], ◌∷◌, ◌++◌, not, Option, none, some, Text, text_eq, codes, if◌then◌else◌}
use gsnet.Common.Int.{ℤ, pos}
use gsnet.Strings.Decimal.{itoa, atoi}
use gsnet.Strings.Space.{trim_space}
use gsnet.Strings.Fields.{fields}
use gsnet.Strings.Cut.{Parts, cut}

abbrev pub class_request : ℤ
class_request = pos 18

pub record Message : Type 0 where
  pub class : ℤ
  pub kind : ℤ
  pub args : List Text

pub record Greeting : Type 0 where
  pub name : Text
  pub major : ℤ
  pub minor : ℤ

pub record PidFile : Type 0 where
  pub pid : ℤ
  pub cookie : Text

pub data Error : Type 0 where
  short_message invalid_class invalid_type not_a_greeting bad_version bad_number : Error
  wrong_fields bad_pid : Error

pub data Result {ℓ} (A : Type ℓ) : Type ℓ where
  refused : Error → Result A
  read : A → Result A

-- Each argument behind a space, then the end of the line.
pub spaced : List Text → Text
spaced [] = []
spaced (a ∷ args) = b' ' ∷ (a ++ spaced args)

-- `EncodeMessage` without the newline, and with it.
unfoldable pub message_line : ℤ → List Text → Text
unfolding spaced
message_line t args = itoa class_request ++ (b' ' ∷ (itoa t ++ spaced args))

pub encode_message : ℤ → List Text → Text
unfolding message_line
encode_message t args = message_line t args ++ b'\n' ∷ []

message_of : Option ℤ → Option ℤ → List Text → Result Message
message_of none t args = refused invalid_class
message_of (some class) none args = refused invalid_type
message_of (some class) (some t) args = read (record { class = class; kind = t; args = args })

message_of_fields : List Text → Result Message
unfolding message_of
message_of_fields (class ∷ t ∷ args) = message_of (atoi class) (atoi t) args
message_of_fields _ = refused short_message

-- `DecodeMessage`
unfoldable pub decode_message : Text → Result Message
unfolding message_of_fields
decode_message line = message_of_fields (fields line)

-- `Greeting.Encode`
unfoldable pub greeting_line : Greeting → Text
greeting_line g = b'0' ∷ b' ' ∷ (g.name ++ (b' ' ∷ (itoa g.major ++ (b'.' ∷ itoa g.minor))))

pub encode_greeting : Greeting → Text
unfolding greeting_line
encode_greeting g = greeting_line g ++ b'\n' ∷ []

numbered : Text → Option ℤ → Option ℤ → Result Greeting
numbered name none minor = refused bad_number
numbered name (some major) none = refused bad_number
numbered name (some major) (some minor) =
    read (record { name = name; major = major; minor = minor })

-- `strings.SplitN(fields[2], ".", 2)` is cut at the first point.
versioned : Text → Parts → Result Greeting
unfolding numbered
versioned name none = refused bad_version
versioned name (some (major, minor)) = numbered name (atoi major) (atoi minor)

greeting_of_fields : List Text → Result Greeting
unfolding versioned
greeting_of_fields (zero_class ∷ name ∷ version ∷ []) =
    if text_eq zero_class (codes "0")
    then versioned name (cut b'.' version)
    else refused not_a_greeting
greeting_of_fields _ = refused not_a_greeting

-- `ParseGreeting`
unfoldable pub parse_greeting : Text → Result Greeting
unfolding greeting_of_fields
parse_greeting line = greeting_of_fields (fields line)

-- `PIDFile.Encode`
unfoldable pub encode_pid_file : PidFile → Text
encode_pid_file p = itoa p.pid ++ (b' ' ∷ (p.cookie ++ b'\n' ∷ []))

pid_file_of : Option ℤ → Text → Result PidFile
pid_file_of none cookie = refused bad_pid
pid_file_of (some pid) cookie = read (record { pid = pid; cookie = cookie })

pid_file_of_fields : List Text → Result PidFile
unfolding pid_file_of
pid_file_of_fields (pid ∷ cookie ∷ []) = pid_file_of (atoi pid) cookie
pid_file_of_fields _ = refused wrong_fields

first_line : Text → Parts → Text
first_line s none = s
first_line s (some (line, rest)) = line

-- `ParsePIDFile`
unfoldable pub parse_pid_file : Text → Result PidFile
unfolding first_line pid_file_of_fields
parse_pid_file s = let t = trim_space s in pid_file_of_fields (fields (first_line t (cut b'\n' t)))
