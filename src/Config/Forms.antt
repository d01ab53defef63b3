-- ===== src/Config/Forms.antt =====
-- All entries of a file have the form that `Render` keeps, so rendering and parsing again is stable.
use gsnet.Common.{
  ◌<◌, ◌≡◌, refl, sym, ◌∙◌, List, [], ◌∷◌, ◌++◌, ◌||◌, not, true, false, Text, text_eq, ◌==◌, leb,
  arith, inl, inr, Bool-cases,
}
use gsnet.Strings.Space.{trim_space, trim_space-IsTrimmed}
use gsnet.Strings.Cut.{lacks}
use gsnet.Strings.Kept.{all-trim_space}
use gsnet.Config.Rendered.{IsKey, IsValue, AllEntries, parse-render, lacks-append}
use gsnet.Config.Parsed.{IsLine, parse_line-Wanted}
use gsnet.Config.{
  Entry, Result, ok, err, and_then, lines_onto, last_line, drop_cr, parse_line, parse_lines, parse,
  byte_len, max_line, is_comment, render_entry, render,
}

abbrev AllLines : List Text → Type 0
AllLines [] = Unit
AllLines (s ∷ ss) = (lacks b'\n' s ≡ true) × AllLines ss

abbrev pub AllForms : List Entry → Type 0
AllForms [] = Unit
AllForms (e ∷ es) = (IsKey e.key × IsValue e.value) × AllForms es

abbrev pub AllShort : List Entry → Type 0
AllShort [] = Unit
AllShort (e ∷ es) = (byte_len (render_entry e) < max_line) × AllShort es

last_line-AllLines : (s : Text) → lacks b'\n' s ≡ true → AllLines (last_line s)
unfolding last_line
last_line-AllLines [] h = tt
last_line-AllLines (c ∷ s) h = (h, tt)

lines_onto-AllLines : (s acc : Text) → lacks b'\n' acc ≡ true → AllLines (lines_onto acc s)
unfolding lines_onto
lines_onto-AllLines [] acc h = last_line-AllLines acc h
lines_onto-AllLines (c ∷ s) acc h = elim (Bool-cases (c == b'\n')) [
  | inl e ↦ rw (e, lines_onto) (h, lines_onto-AllLines s [] refl)
  | inr e ↦
      rw (e, lines_onto)
        (lines_onto-AllLines s (acc ++ c ∷ []) (lacks-append b'\n' acc (c ∷ []) h (ground arith)))
]

lacks-drop_cr : (s : Text) → lacks b'\n' s ≡ true → lacks b'\n' (drop_cr s) ≡ true
unfolding drop_cr
lacks-drop_cr [] h = refl
lacks-drop_cr (c ∷ []) h = ground arith
lacks-drop_cr (c ∷ d ∷ ds) h = ground (arith, lacks-drop_cr (d ∷ ds))

trim_space-IsLine :
    (raw : Text)
    → lacks b'\n' raw ≡ true
    → is_comment (trim_space (drop_cr raw)) ≡ false
    → IsLine (trim_space (drop_cr raw))
trim_space-IsLine raw h c = record {
  trimmed = trim_space-IsTrimmed (drop_cr raw);
  no_comment = c;
  no_newline = all-trim_space (λ c. not (c == b'\n')) (drop_cr raw) (lacks-drop_cr raw h);
}

and_then-eq-ok :
    {A B : Type 0} (m : Result A) (f : A → Result B) {b : B}
    → and_then m f ≡ ok b
    → (a : A) × (m ≡ ok a) × (f a ≡ ok b)
and_then-eq-ok (ok a) f h = (a, refl, h)
and_then-eq-ok (err e) f h = cc

parse_lines-AllForms :
    (raws : List Text) (es : List Entry) → AllLines raws → parse_lines raws ≡ ok es → AllForms es
unfolding parse_lines
parse_lines-AllForms [] [] h e = tt
parse_lines-AllForms [] (x ∷ es) h e = cc
parse_lines-AllForms (raw ∷ rest) es h e = elim (Bool-cases (leb max_line (byte_len raw))) [
  | inl long ↦ cc (rw (long, parse_lines) at e)
  | inr short ↦
      let line = trim_space (drop_cr raw) in
      elim (Bool-cases (text_eq line [] || is_comment line)) [
        | inl skip ↦ parse_lines-AllForms rest es h.1 (rw (short, skip, parse_lines) at e)
        | inr keep ↦
            let (x, parsed, more) =
              and_then-eq-ok (parse_line line)
                (λ x. and_then (parse_lines rest) (λ ys. ok (x ∷ ys)))
                (rw (short, keep, parse_lines) at e) in
            let (ys, others, whole) = and_then-eq-ok (parse_lines rest) (λ ys. ok (x ∷ ys)) more in
            let wanted =
              rw parsed at (parse_line-Wanted line (trim_space-IsLine raw h.0 (ground arith))) in
            let same : x ∷ ys ≡ es = cc whole in
            rw (← same) (wanted, parse_lines-AllForms rest ys h.1 others)
      ]
]

-- Every entry that `Parse` returns has a key that is canonical, not empty, trimmed, free of `=` and
-- newlines, and does not begin with `#`, and a value that is not empty, trimmed and free of newlines.
pub parse-AllForms : (s : Text) (es : List Entry) → parse s ≡ ok es → AllForms es
unfolding parse
parse-AllForms s es e = parse_lines-AllForms (lines_onto [] s) es (lines_onto-AllLines s [] refl) e

pub AllForms-AllEntries : (es : List Entry) → AllForms es → AllShort es → AllEntries es
AllForms-AllEntries [] f h = tt
AllForms-AllEntries (e ∷ es) f h =
    (record { key = f.0.0; value = f.0.1; short = h.0 }, AllForms-AllEntries es f.1 h.1)

-- What was parsed from any file can be rendered and parsed again with the same result, where the
-- rendered lines are shorter than the scanner's limit.
pub parse-render-parse :
    (s : Text) (es : List Entry) → parse s ≡ ok es → AllShort es → parse (render es) ≡ parse s
parse-render-parse s es e short =
    parse-render es (AllForms-AllEntries es (parse-AllForms s es e) short) ∙ sym e
