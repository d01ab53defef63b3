-- ===== src/Invite/File/Blocks.antt =====
-- What `ParseFile` makes of the lines that `Render` writes.
use gsnet.Common.{
  ◌≡◌, refl, sym, ap, ◌∙◌, List, [], ◌∷◌, ◌++◌, ◌&&◌, not, map, Bool, true, false, Text, text_eq,
  text_eq_iff, codes, all, if◌then◌else◌, arith, Bool-cases, inl, inr,
}
use mathlib.Core.List.{append_assoc, append-nil}
use gsnet.Config.{Entry, render_entry, lines_onto, is_comment, byte_len, max_line, parse_lines}
use gsnet.Config
use gsnet.Config.Lines.{lines_onto-cons, lines_onto_one, drop_cr_id}
use gsnet.Strings.Cut.{lacks}
use gsnet.Strings.Space.{trim_space_id}
use gsnet.Config.Rendered.{
  IsEntry, AllEntries, parse-render, lacks-append, ne-append, comment-append,
  render_entry-IsTrimmed,
}
use gsnet.Invite.File.{
  Block, ok, is_nil, single, is_key, parse_config_line, blocks_onto, field, fields_of, others,
  field_if_set, write_block,
}

abbrev pub entry : Text → Text → Entry
entry k v = record { key = k; value = v }

abbrev pub entries_of : Text → List Text → List Entry
entries_of k vs = map (entry k) vs

unfoldable pub entry_if_set : Text → Text → List Entry
entry_if_set k v = if text_eq v [] then [] else entry k v ∷ []

-- The entries behind the name of a block.
unfoldable pub rest_entries : Text → Block → List Entry
rest_entries net b =
    entry_if_set (codes "Netname") net
    ++ (entries_of (codes "ConnectTo") b.connect_to
        ++ (entry_if_set (codes "Address") b.address
            ++ (entries_of (codes "Ifconfig") b.ifconfig
                ++ (entries_of (codes "Route") b.route ++ b.other))))

abbrev pub block_entries : Text → Block → List Entry
block_entries net b = entry (codes "Name") b.name ∷ rest_entries net b

abbrev pub unnamed : List Entry → Bool
unnamed es = all (λ e. not (is_key (codes "Name") e)) es

pub write_entries : List Entry → Text
write_entries [] = []
write_entries (e ∷ es) = field e.key e.value ++ write_entries es

write_entries-append :
    (es fs : List Entry) → write_entries (es ++ fs) ≡ write_entries es ++ write_entries fs
unfolding write_entries
write_entries-append [] fs = refl
write_entries-append (e ∷ es) fs =
    rw (write_entries-append es fs)
      (sym (append_assoc (field e.key e.value) (write_entries es) (write_entries fs)))

write_entries_of : (k : Text) (vs : List Text) → write_entries (entries_of k vs) ≡ fields_of k vs
unfolding write_entries fields_of
write_entries_of k [] = refl
write_entries_of k (v ∷ vs) = ap (λ t. field k v ++ t) (write_entries_of k vs)

write_others : (es : List Entry) → write_entries es ≡ others es
unfolding write_entries others
write_others [] = refl
write_others (e ∷ es) = ap (λ t. field e.key e.value ++ t) (write_others es)

write_if_set : (k v : Text) → write_entries (entry_if_set k v) ≡ field_if_set k v
unfolding write_entries entry_if_set field_if_set
write_if_set k v = elim (Bool-cases (text_eq v [])) [
  | inl e ↦ rw e refl
  | inr e ↦ rw (e, append-nil) refl
]

pub write_block_lem :
    (net : Text) (b : Block) → write_block net b ≡ write_entries (block_entries net b)
unfolding write_block rest_entries write_entries
write_block_lem net b =
    rw
      (
        write_entries-append, write_if_set, write_entries-append, write_entries_of,
        write_entries-append, write_if_set, write_entries-append, write_entries_of,
        write_entries-append, write_entries_of, write_others,
      )
      refl

line_lacks : (e : Entry) → IsEntry e → lacks b'\n' (render_entry e) ≡ true
line_lacks e h = lacks-append b'\n' e.key _ h.key.no_newline h.value.no_newline

-- A line that `Render` writes is the line of its entry.
lines_onto-field :
    (e : Entry) (rest : Text)
    → IsEntry e
    → lines_onto [] (field e.key e.value ++ rest) ≡ render_entry e ∷ lines_onto [] rest
lines_onto-field e rest h =
    ap (lines_onto []) (
      append_assoc e.key (b' ' ∷ b'=' ∷ b' ' ∷ (e.value ++ (b'\n' ∷ []))) rest
      ∙ ap (λ t. e.key ++ (b' ' ∷ b'=' ∷ b' ' ∷ t)) (append_assoc e.value (b'\n' ∷ []) rest)
      ∙ sym (append_assoc e.key (b' ' ∷ b'=' ∷ b' ' ∷ e.value) (b'\n' ∷ rest)))
    ∙ lines_onto-cons (render_entry e) rest (line_lacks e h)

parse_config_line-render_entry : (e : Entry) → IsEntry e → parse_config_line (render_entry e) ≡ ok e
unfolding parse_config_line Config.render
parse_config_line-render_entry e h =
    let line = lines_onto_one (render_entry e) (ne-append e.key _ h.key.ne) (line_lacks e h) in
    let same = lines_onto-cons (render_entry e) [] (line_lacks e h) in
    let parsed : Config.parse (render_entry e) ≡ Config.ok (e ∷ []) =
      unfold Config.parse in
      ap parse_lines (line ∙ sym (unfold lines_onto in same)) ∙ parse-render (e ∷ []) (h, tt) in
    ap single parsed

blocks_onto-cons :
    (e : Entry) (current : List Entry) (rest : List Text)
    → IsEntry e
    → is_key (codes "Name") e && not (is_nil current) ≡ false
    → blocks_onto current (render_entry e ∷ rest) ≡ blocks_onto (current ++ (e ∷ [])) rest
unfolding blocks_onto
blocks_onto-cons e current rest h inner =
    let t = render_entry-IsTrimmed e h in
    rw
      (
        drop_cr_id (render_entry e) t.ends,
        trim_space_id (render_entry e) t,
        parse_config_line-render_entry e h,
        comment-append e.key _ h.key.ne,
        inner,
      )
      (ground (
        arith,
        h.short,
        h.key.no_comment,
        text_eq_iff (render_entry e) [],
        ne-append e.key (b' ' ∷ b'=' ∷ b' ' ∷ e.value) h.key.ne,
      ))

-- The entries of a block are read behind those read so far.
pub blocks_onto-append :
    (es current : List Entry) (rest : Text)
    → AllEntries es
    → unnamed es ≡ true
    → blocks_onto current (lines_onto [] (write_entries es ++ rest))
      ≡ blocks_onto (current ++ es) (lines_onto [] rest)
unfolding write_entries
blocks_onto-append [] current rest h u = rw append-nil refl
blocks_onto-append (e ∷ es) current rest h u =
    rw
      (
        append_assoc (field e.key e.value) (write_entries es) rest,
        lines_onto-field e (write_entries es ++ rest) h.0,
        blocks_onto-cons e current (lines_onto [] (write_entries es ++ rest)) h.0 (ground arith),
      )
      (blocks_onto-append es (current ++ (e ∷ [])) rest h.1 (ground arith)
        ∙ ap (λ c. blocks_onto c (lines_onto [] rest)) (append_assoc current (e ∷ []) es))

-- A block that `Render` writes is read as its entries.
pub blocks_onto-write_block :
    (net : Text) (b : Block) (rest : Text)
    → AllEntries (block_entries net b)
    → unnamed (rest_entries net b) ≡ true
    → blocks_onto [] (lines_onto [] (write_block net b ++ rest))
      ≡ blocks_onto (block_entries net b) (lines_onto [] rest)
unfolding write_entries is_nil
blocks_onto-write_block net b rest h u =
    let name = entry (codes "Name") b.name in
    rw
      (
        write_block_lem net b,
        append_assoc (field name.key name.value) (write_entries (rest_entries net b)) rest,
        lines_onto-field name (write_entries (rest_entries net b) ++ rest) h.0,
        blocks_onto-cons name [] (lines_onto [] (write_entries (rest_entries net b) ++ rest)) h.0
            (ground arith),
      )
      (blocks_onto-append (rest_entries net b) (name ∷ []) rest h.1 u)
