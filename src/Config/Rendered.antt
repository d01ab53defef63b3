-- ===== src/Config/Rendered.antt =====
-- `Parse` reads back what `Render` writes.
use gsnet.Common.{
  ℕ, ◌<◌, ◌≡◌, ◌≢◌, refl, sym, ap, ◌∙◌, List, [], ◌∷◌, ◌++◌, true, false, Text, text_eq_iff, arith,
}
use mathlib.Core.List.{append_assoc}
use gsnet.Strings.Space.{
  blank-is_space, trim_space_id, trim_space-concat, trim_space-cons, starts_plain-append,
  ends_plain-append, IsTrimmed,
}
use gsnet.Strings.Cut.{cut, lacks, cut-append}
use gsnet.Config.Keys.{canonical_key}
use gsnet.Config.Lines.{lines_onto-cons, parse_lines-cons}
use gsnet.Config.{
  entry_of_parts, Entry, ok, lines_onto, parse_line, parse_lines, parse, byte_len, max_line,
  is_comment, render_entry, render, make_entry,
}

pub record IsKey (k : Text) : Type 0 where
  pub trimmed : IsTrimmed k
  pub ne : k ≢ []
  pub no_equals : lacks b'=' k ≡ true
  pub no_newline : lacks b'\n' k ≡ true
  pub no_comment : is_comment k ≡ false
  pub canonical : canonical_key k ≡ k

pub record IsValue (v : Text) : Type 0 where
  pub trimmed : IsTrimmed v
  pub ne : v ≢ []
  pub no_newline : lacks b'\n' v ≡ true

pub record IsEntry (e : Entry) : Type 0 where
  pub key : IsKey e.key
  pub value : IsValue e.value
  pub short : byte_len (render_entry e) < max_line

abbrev pub AllEntries : List Entry → Type 0
AllEntries [] = Unit
AllEntries (e ∷ es) = IsEntry e × AllEntries es

pub lacks-append :
    (c : ℕ) (a b : Text) → lacks c a ≡ true → lacks c b ≡ true → lacks c (a ++ b) ≡ true
lacks-append c [] b h k = k
lacks-append c (x ∷ a) b h k = ground (arith, lacks-append c a b)

pub ne-append : (a b : Text) → a ≢ [] → a ++ b ≢ []
ne-append [] b h = absurd (h refl)
ne-append (x ∷ a) b h = λ e. cc e

pub comment-append : (a b : Text) → a ≢ [] → is_comment (a ++ b) ≡ is_comment a
comment-append [] b h = absurd (h refl)
comment-append (x ∷ a) b h = refl

pub render_entry-IsTrimmed : (e : Entry) → IsEntry e → IsTrimmed (render_entry e)
render_entry-IsTrimmed e h = record {
  starts = starts_plain-append e.key _ h.key.ne ∙ h.key.trimmed.starts;
  ends =
      ends_plain-append e.key (b' ' ∷ b'=' ∷ b' ' ∷ e.value) (λ p. cc p)
      ∙ ends_plain-append (b' ' ∷ b'=' ∷ b' ' ∷ []) e.value h.value.ne
      ∙ h.value.trimmed.ends;
}

-- The line that `Render` writes for an entry is parsed to the entry.
parse_line-render_entry : (e : Entry) → IsEntry e → parse_line (render_entry e) ≡ ok e
unfolding parse_line
parse_line-render_entry e h =
    let at_equals =
      ap (cut b'=') (sym (append_assoc e.key (b' ' ∷ []) (b'=' ∷ b' ' ∷ e.value)))
      ∙ cut-append b'=' (e.key ++ b' ' ∷ []) (b' ' ∷ e.value)
          (lacks-append b'=' e.key (b' ' ∷ []) h.key.no_equals refl) in
    rw
      (
        at_equals,
        entry_of_parts,
        trim_space-concat e.key b' ' h.key.trimmed h.key.ne blank-is_space,
        trim_space-cons b' ' e.value blank-is_space,
        trim_space_id e.value h.value.trimmed,
      )
      (unfold make_entry in
        rw h.key.canonical (ground (arith, text_eq_iff e.key [], text_eq_iff e.value [])))

parse_lines-render :
    (es : List Entry) → AllEntries es → parse_lines (lines_onto [] (render es)) ≡ ok es
unfolding render
parse_lines-render [] h = unfold parse_lines lines_onto in refl
parse_lines-render (e ∷ es) h = rw (
  lines_onto-cons (render_entry e) (render es)
      (lacks-append b'\n' e.key _ h.0.key.no_newline h.0.value.no_newline),
  parse_lines-cons (render_entry e) (lines_onto [] (render es)) (render_entry-IsTrimmed e h.0)
      (ne-append e.key _ h.0.key.ne) (comment-append e.key _ h.0.key.ne ∙ h.0.key.no_comment)
      h.0.short,
  parse_line-render_entry e h.0,
  parse_lines-render es h.1,
)

-- Parsing what `Render` writes gives the entries back: keys are canonical, trimmed and free of `=`,
-- newlines and a leading `#`; values are trimmed and free of newlines; each line is shorter than the
-- scanner's limit.
pub parse-render : (es : List Entry) → AllEntries es → parse (render es) ≡ ok es
unfolding parse
parse-render es h = parse_lines-render es h
