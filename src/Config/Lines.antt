-- ===== src/Config/Lines.antt =====
-- One line of a file through the scanner and the trimming.
use gsnet.Common.{
  ◌<◌, ◌≡◌, ◌≢◌, refl, ap, ◌∙◌, List, [], ◌∷◌, ◌++◌, true, false, Text, text_eq_iff, arith,
}
use mathlib.Core.List.{append_assoc, append-nil}
use gsnet.Strings.Space.{cr-is_space, trim_space_id, ends_plain, IsTrimmed}
use gsnet.Strings.Cut.{lacks}
use gsnet.Config.{
  ok, and_then, last_line, lines_onto, drop_cr, parse_line, parse_lines, byte_len, max_line,
  is_comment,
}

lines_onto-append :
    (line acc rest : Text)
    → lacks b'\n' line ≡ true
    → lines_onto acc (line ++ (b'\n' ∷ rest)) ≡ (acc ++ line) ∷ lines_onto [] rest
unfolding lines_onto
lines_onto-append [] acc rest h = rw append-nil
lines_onto-append (c ∷ line) acc rest h =
    ground (arith, lines_onto-append line (acc ++ c ∷ []) rest, append_assoc acc (c ∷ []) line)

pub lines_onto-cons :
    (line rest : Text)
    → lacks b'\n' line ≡ true
    → lines_onto [] (line ++ (b'\n' ∷ rest)) ≡ line ∷ lines_onto [] rest
lines_onto-cons line rest h = lines_onto-append line [] rest h

pub drop_cr_id : (s : Text) → ends_plain s ≡ true → drop_cr s ≡ s
unfolding drop_cr
drop_cr_id [] h = refl
drop_cr_id (c ∷ []) h = ground (arith, cr-is_space)
drop_cr_id (c ∷ d ∷ ds) h = ap (◌∷◌ c) (drop_cr_id (d ∷ ds) h)

-- A line that is trimmed, short, no comment and not empty is parsed as it stands.
pub parse_lines-cons :
    (line : Text) (rest : List Text)
    → IsTrimmed line
    → line ≢ []
    → is_comment line ≡ false
    → byte_len line < max_line
    → parse_lines (line ∷ rest)
      ≡ and_then (parse_line line) (λ e. and_then (parse_lines rest) (λ es. ok (e ∷ es)))
unfolding parse_lines
parse_lines-cons line rest t ne c short =
    rw (drop_cr_id line t.ends, trim_space_id line t) (ground (arith, text_eq_iff line []))

-- The last line needs no newline.
lines_onto_last :
    (line acc : Text) → lacks b'\n' line ≡ true → lines_onto acc line ≡ last_line (acc ++ line)
unfolding lines_onto
lines_onto_last [] acc h = rw append-nil refl
lines_onto_last (c ∷ line) acc h =
    ground (arith, lines_onto_last line (acc ++ c ∷ []), append_assoc acc (c ∷ []) line)

pub lines_onto_one :
    (line : Text) → line ≢ [] → lacks b'\n' line ≡ true → lines_onto [] line ≡ line ∷ []
lines_onto_one [] ne h = absurd (ne refl)
lines_onto_one (c ∷ cs) ne h = lines_onto_last (c ∷ cs) [] h ∙ unfold last_line in refl
