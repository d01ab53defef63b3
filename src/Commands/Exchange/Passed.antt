-- ===== src/Commands/Exchange/Passed.antt =====
-- A host that was exported is imported as it was.
use gsnet.Common.{
  ◌≡◌, ◌≢◌, refl, sym, ap, ◌∙◌, List, [], ◌∷◌, ◌++◌, true, Option, none, some, Text, text_eq,
  text_eq_iff, codes, ◌==◌, arith, Bool-cases, Option-cases, inl, inr,
}
use mathlib.Core.List.{append-nil, append_assoc}
use gsnet.Strings.Space.{
  is_space, trim_space, trim_space_id, trim_space-concat, trim_space-cons, IsTrimmed,
  ends_plain-append, blank-is_space, newline-is_space,
}
use gsnet.Strings.Cut.{lacks}
use gsnet.Strings.Fold.{equal_fold}
use gsnet.Config.Rendered.{lacks-append}
use gsnet.Config.{Entry, get_first}
use gsnet.Config.Directory.{contents, loaded, load_directory}
use gsnet.Daemon.Paths.{Paths, conf_file, hosts_dir, host_file}
use gsnet.Commands.{Problem, Store, IsLawful, Ran, stopped, done, and_then, calling, write_failed}
use gsnet.Commands.Exchange.{
  raw_onto, concat, name_in, name_line, exported, export_host, export_named, cmd_export, write_host,
  import_loop, cmd_import,
}

concat-raw_onto : (s word : Text) → concat (raw_onto word s) ≡ word ++ s
unfolding raw_onto concat
concat-raw_onto [] word = elim (Bool-cases (text_eq word [])) [
  | inl e ↦ rw (e, raw_onto) (ground (arith, text_eq_iff word [], append-nil word))
  | inr e ↦ rw (e, raw_onto) refl
]
concat-raw_onto (c ∷ cs) word = elim (Bool-cases (c == b'\n')) [
  | inl e ↦
      rw (e, raw_onto)
        (ap (◌++◌ (word ++ c ∷ [])) (concat-raw_onto cs []) ∙ append_assoc word (c ∷ []) cs)
  | inr e ↦ rw (e, raw_onto) (concat-raw_onto cs (word ++ c ∷ []) ∙ append_assoc word (c ∷ []) cs)
]

raw_onto-cons :
    (s word rest : Text)
    → lacks b'\n' s ≡ true
    → raw_onto word (s ++ (b'\n' ∷ rest)) ≡ (word ++ (s ++ b'\n' ∷ [])) ∷ raw_onto [] rest
unfolding raw_onto
raw_onto-cons [] word rest h = refl
raw_onto-cons (c ∷ s) word rest h =
    ground
      (arith, raw_onto-cons s (word ++ c ∷ []) rest, append_assoc word (c ∷ []) (s ++ b'\n' ∷ []))

-- No line of the host file sets a name.
abbrev pub NoName : List Text → Type 0
NoName [] = Unit
NoName (l ∷ ls) = (name_line l ≡ none) × NoName ls

abbrev named_line : Text → Text
named_line name = codes "Name = " ++ (name ++ b'\n' ∷ [])

-- What `cmdExport` puts in front sets the name.
name_line-named_line :
    (name : Text) → IsTrimmed name → name ≢ [] → name_line (named_line name) ≡ some name
unfolding name_line name_in is_space trim_space equal_fold
name_line-named_line name h ne =
    let line = codes "Name = " ++ name in
    let trimmed : IsTrimmed line = record {
      starts = refl;
      ends = ends_plain-append (codes "Name = ") name ne ∙ h.ends;
    } in
    let whole : trim_space (line ++ b'\n' ∷ []) ≡ line =
      trim_space-concat line b'\n' trimmed (λ e. cc e) newline-is_space in
    rw (whole, trim_space-cons b' ' name blank-is_space, trim_space_id name h) refl

module _ {S : Type 0} (st : Store S) (p : Paths) where
  import_loop-NoName :
      (s : S) (name : Text) (kept ls : List Text)
      → NoName ls
      → name ≢ []
      → import_loop st p s name kept ls ≡ write_host st p s name (kept ++ ls)
  unfolding import_loop
  import_loop-NoName s name kept [] h ne = ground (arith, text_eq_iff name [], append-nil kept)
  import_loop-NoName s name kept (l ∷ ls) h ne =
      rw (h.0, import_loop)
        (import_loop-NoName s name (kept ++ l ∷ []) ls h.1 ne
          ∙ ap (write_host st p s name) (append_assoc kept (l ∷ []) ls))

  import_loop-exported :
      (s : S) (name host : Text)
      → IsTrimmed name
      → name ≢ []
      → lacks b'\n' name ≡ true
      → NoName (raw_onto [] host)
      → cmd_import st p s (exported name host) ≡ write_host st p s name (raw_onto [] host)
  unfolding cmd_import exported import_loop
  import_loop-exported s name host h ne one_line none_named =
      let lines =
        raw_onto-cons (codes "Name = " ++ name) [] host
          (lacks-append b'\n' (codes "Name = ") name refl one_line) in
      ap (import_loop st p s [] []) lines
      ∙ rw (name_line-named_line name h ne, import_loop)
          (import_loop-NoName s name [] (raw_onto [] host) none_named ne)

  -- If the command got that far, the file has this text.
  abbrev pub Leaves : Ran S (Unit {0}) → Text → Text → Type 0
  Leaves (stopped t e) path text = Unit
  Leaves (done t u) path text = (st.disk t).open_file path ≡ contents text

  module _ (law : IsLawful st) where
    wrote :
        (s : S) (path text : Text) (e : Problem) (o : Option S)
        → o ≡ st.write_file s path text
        → Leaves (calling s e o) path text
    wrote s path text e none h = tt
    wrote s path text e (some t) h = law.read-write s t path text (sym h)

    write_host-Leaves :
        (s : S) (name host : Text) (lines : List Text)
        → concat lines ≡ host
        → Leaves (write_host st p s name lines) (host_file p name) host
    unfolding write_host
    write_host-Leaves s name host lines same = elim (Option-cases (st.mkdir_all s (hosts_dir p))) [
      | inl e ↦ rw e tt
      | inr (t, e) ↦
          rw (e, same)
            (wrote t (host_file p name) host write_failed (st.write_file t (host_file p name) host)
              refl)
    ]

module _ {S : Type 0} (st : Store S) (law : IsLawful st) (p q : Paths) where
  -- What one node exports another imports as it was: the output of `export`, fed to `import` on another
  -- tree, becomes the host file of the exporting node, byte for byte, unless creating the directory or
  -- writing the file fails. The name is trimmed and not empty, and no line of the host file sets a name.
  pub export_import :
      (s r : S) (es : List Entry) (name host : Text)
      → load_directory (st.disk s) (conf_file p) ≡ loaded es
      → get_first es (codes "Name") ≡ some name
      → (st.disk s).open_file (host_file p name) ≡ contents host
      → IsTrimmed name
      → name ≢ []
      → lacks b'\n' name ≡ true
      → NoName (raw_onto [] host)
      → let imported = and_then (cmd_export st p s) (λ _ out. cmd_import st q r out) in
        (imported ≡ write_host st q r name (raw_onto [] host))
        × Leaves st q imported (host_file q name) host
  unfolding cmd_export export_named export_host
  export_import s r es name host config named held h ne one_line none_named =
      let imported = import_loop-exported st q r name host h ne one_line none_named in
      let left =
        write_host-Leaves st q law r name host (raw_onto [] host) (concat-raw_onto host []) in
      rw (config, named, held, export_host, imported) (refl, left)
