-- ===== src/Config.antt =====
-- internal/config/parser.go: the configuration format. A text is the list of its code points.
pub mod Keys
pub mod Lines
pub mod Rendered
pub mod Parsed
pub mod Lookup
pub mod Forms
pub mod Directory
mod Tests
use gsnet.Common.{
  ℕ, ◌+◌, List, [], ◌∷◌, ◌++◌, ◌||◌, ◌&&◌, not, Bool, true, false, Option, none, some, Text,
  text_eq, codes, length, drop, ◌==◌, leb, ltb, if◌then◌else◌,
}
use gsnet.Strings.Space.{trim_space}
use gsnet.Strings.Fields.{fields, fields_onto}
use gsnet.Strings.Cut.{Parts, cut}
use gsnet.Strings.Fold.{equal_fold}
use Keys.{canonical_key}

pub record Entry : Type 0 where
  pub key : Text
  pub value : Text

pub data Error : Type 0 where
  missing_value empty_key empty_value line_too_long : Error

pub data Result {ℓ} (A : Type ℓ) : Type ℓ where
  err : Error → Result A
  ok : A → Result A

-- `if err != nil { return nil, err }`, and then the rest.
abbrev pub and_then {ℓ κ} : {A : Type ℓ} {B : Type κ} → Result A → (A → Result B) → Result B
and_then (err e) next = err e
and_then (ok a) next = next a

-- The bytes of a code point in UTF-8, and of a text.
abbrev pub utf8_len : ℕ → ℕ
utf8_len c = if ltb c 0x80 then 1 else if ltb c 0x800 then 2 else if ltb c 0x10000 then 3 else 4

unfoldable pub byte_len : Text → ℕ
byte_len [] = 0
byte_len (c ∷ cs) = utf8_len c + byte_len cs

-- `bufio.MaxScanTokenSize`: a line of as many bytes ends the scan with an error.
abbrev pub max_line : ℕ
max_line = 65536

unfoldable pub last_line : Text → List Text
last_line [] = []
last_line (c ∷ cs) = (c ∷ cs) ∷ []

-- The raw lines of the scanner, behind the part of a line read so far; a newline at the end starts no
-- line.
unfoldable pub lines_onto : Text → Text → List Text
unfolding last_line
lines_onto line [] = last_line line
lines_onto line (c ∷ cs) =
    let next = line ∷ lines_onto [] cs in
    let same = lines_onto (line ++ c ∷ []) cs in if c == b'\n' then next else same

-- One carriage return at the end of a line is dropped.
unfoldable pub drop_cr : Text → Text
drop_cr [] = []
drop_cr (c ∷ []) = if c == b'\r' then [] else c ∷ []
drop_cr (c ∷ d ∷ ds) = c ∷ drop_cr (d ∷ ds)

unfoldable pub make_entry : Text → Text → Result Entry
make_entry key value =
    if text_eq key []
    then err empty_key
    else if text_eq value []
    then err empty_value
    else ok (record { key = canonical_key key; value = value })

-- The branch with no `=`: `s[len(fields[0]):]` is what follows the first field.
entry_of_fields : Text → List Text → Result Entry
unfolding make_entry
entry_of_fields s (key ∷ second ∷ more) = make_entry key (trim_space (drop (length key) s))
entry_of_fields s (key ∷ []) = err missing_value
entry_of_fields s [] = err missing_value

entry_of_parts : Text → Parts → Result Entry
unfolding entry_of_fields
entry_of_parts s (some (key, value)) = make_entry (trim_space key) (trim_space value)
entry_of_parts s none = entry_of_fields s (fields s)

-- `parseLine`
unfoldable pub parse_line : Text → Result Entry
unfolding entry_of_parts cut trim_space fields_onto
parse_line s = entry_of_parts s (cut b'=' s)

abbrev pub is_comment : Text → Bool
is_comment [] = false
is_comment (c ∷ cs) = c == b'#'

-- The loop of `Parse`.
unfoldable pub parse_lines : List Text → Result (List Entry)
unfolding parse_line drop_cr trim_space byte_len
parse_lines [] = ok []
parse_lines (raw ∷ rest) =
    let line = trim_space (drop_cr raw) in
    let skip = parse_lines rest in
    let take_it =
      and_then (parse_line line) (λ e. and_then (parse_lines rest) (λ es. ok (e ∷ es))) in
    if leb max_line (byte_len raw)
    then err line_too_long
    else if text_eq line [] || is_comment line
    then skip
    else take_it

-- `Parse`, on the whole input.
unfoldable pub parse : Text → Result (List Entry)
unfolding parse_lines lines_onto
parse s = parse_lines (lines_onto [] s)

-- `GetFirst`
unfoldable pub get_first : List Entry → Text → Option Text
get_first [] key = none
get_first (e ∷ es) key = if equal_fold e.key key then some e.value else get_first es key

-- `GetAll`
unfoldable pub get_all : List Entry → Text → List Text
get_all [] key = []
get_all (e ∷ es) key =
    let rest = get_all es key in if equal_fold e.key key then e.value ∷ rest else rest

abbrev pub render_entry : Entry → Text
render_entry e = e.key ++ (b' ' ∷ b'=' ∷ b' ' ∷ e.value)

-- `Render`
unfoldable pub render : List Entry → Text
render [] = []
render (e ∷ es) = render_entry e ++ (b'\n' ∷ render es)
