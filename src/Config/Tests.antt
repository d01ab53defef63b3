-- ===== src/Config/Tests.antt =====
-- The theorems on configuration files at one file.
use gsnet.Common.{◌≡◌, refl, List, [], ◌∷◌, true, Text, text_eq, codes, arith}
use gsnet.Config.{byte_len, Entry, ok, parse, render}
use gsnet.Config.Keys.{canonical_key}
use gsnet.Dict.{get}
use gsnet.Strings.Fold.{to_lower, equal_fold}
use gsnet.Config.Rendered.{parse-render}
use gsnet.Config.Forms.{AllShort, AllForms-AllEntries, parse-AllForms, parse-render-parse}

abbrev file : Text
file = codes "# a comment\nname = alpha\r\n  Port  655\n"

abbrev entries : List Entry
entries =
    record { key = codes "Name"; value = codes "alpha" }
    ∷ record { key = codes "Port"; value = codes "655" }
    ∷ []

parsed : parse file ≡ ok entries
unfolding parse text_eq canonical_key get to_lower
parsed = refl

entries-AllShort : AllShort entries
unfolding byte_len
entries-AllShort = (omega arith, (omega arith, tt))

parse-render_example : parse (render entries) ≡ ok entries
parse-render_example =
    parse-render entries
      (AllForms-AllEntries entries (parse-AllForms file entries parsed) entries-AllShort)

parse-render-parse_example : parse (render entries) ≡ parse file
parse-render-parse_example = parse-render-parse file entries parsed entries-AllShort

same_key : equal_fold (codes "PORT") (codes "port") ≡ true
unfolding equal_fold
same_key = refl
