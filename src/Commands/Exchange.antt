-- ===== src/Commands/Exchange.antt =====
-- `cmdExport` and `cmdImport`, with `writeHost`.
pub mod Passed
use gsnet.Common.{
  ℕ, List, [], ◌∷◌, ◌++◌, Bool, true, false, Option, none, some, Text, text_eq, codes, ◌==◌,
  if◌then◌else◌,
}
use gsnet.Strings.Space.{trim_space}
use gsnet.Strings.Cut.{Parts, cut}
use gsnet.Strings.Fold.{equal_fold}
use gsnet.Config.{Entry, get_first, is_comment}
use gsnet.Config.Directory.{
  Opened, missing, unreadable, contents, not_there, cannot_read, load_directory,
}
use gsnet.Daemon.Paths.{Paths, conf_file, hosts_dir, host_file}
use gsnet.Commands.{
  Store, Ran, stopped, done, and_then, loading, calling, write_failed, mkdir_failed, no_name,
  unloaded,
}

-- The lines that `ReadString('\n')` gives, each with its newline, behind the part read so far; the
-- last has none.
unfoldable pub raw_onto : Text → Text → List Text
raw_onto word [] = if text_eq word [] then [] else word ∷ []
raw_onto word (c ∷ cs) =
    let next = (word ++ c ∷ []) ∷ raw_onto [] cs in
    let same = raw_onto (word ++ c ∷ []) cs in if c == b'\n' then next else same

-- `strings.Join(lines, "")`
unfoldable pub concat : List Text → Text
concat [] = []
concat (l ∷ ls) = l ++ concat ls

unfoldable pub name_in : Parts → Option Text
unfolding equal_fold trim_space
name_in none = none
name_in (some (k, v)) =
    if equal_fold (trim_space k) (codes "Name") then some (trim_space v) else none

-- The name, if a line sets one.
unfoldable pub name_line : Text → Option Text
unfolding name_in cut trim_space
name_line raw =
    let line = trim_space raw in
    if text_eq line [] then none else if is_comment line then none else name_in (cut b'=' line)

exported : Text → Text → Text
exported name host = codes "Name = " ++ (name ++ (b'\n' ∷ host))

module _ {S : Type 0} (st : Store S) (p : Paths) where
  -- `os.ReadFile(p.HostFile(name))`, and the output.
  export_host : S → Text → Opened → Ran S Text
  unfolding exported
  export_host s name missing = stopped s (unloaded not_there)
  export_host s name unreadable = stopped s (unloaded cannot_read)
  export_host s name (contents host) = done s (exported name host)

  export_named : S → Option Text → Ran S Text
  unfolding export_host host_file
  export_named s none = stopped s no_name
  export_named s (some name) = export_host s name ((st.disk s).open_file (host_file p name))

  -- `cmdExport`
  unfoldable pub cmd_export : S → Ran S Text
  unfolding export_named get_first load_directory
  cmd_export s =
      and_then (loading s (load_directory (st.disk s) (conf_file p)))
        (λ t es. export_named t (get_first es (codes "Name")))

  -- `writeHost`
  unfoldable pub write_host : S → Text → List Text → Ran S (Unit {0})
  unfolding hosts_dir host_file concat
  write_host s name lines =
      and_then (calling s mkdir_failed (st.mkdir_all s (hosts_dir p)))
        (λ t _. calling t write_failed (st.write_file t (host_file p name) (concat lines)))

  -- The loop of `cmdImport`, with the name and the lines read so far.
  unfoldable pub import_loop : S → Text → List Text → List Text → Ran S (Unit {0})
  unfolding write_host name_line
  import_loop s name kept [] = if text_eq name [] then done s tt else write_host s name kept
  import_loop s name kept (l ∷ ls) = elim (name_line l) [
    | none ↦ import_loop s name (kept ++ l ∷ []) ls
    | some next ↦ elim (text_eq name []) [
      | true ↦ import_loop s next kept ls
      | false ↦ and_then (write_host s name kept) (λ t _. import_loop t next [] ls)
    ]
  ]

  -- `cmdImport`, on the whole input.
  unfoldable pub cmd_import : S → Text → Ran S (Unit {0})
  unfolding import_loop raw_onto
  cmd_import s input = import_loop s [] [] (raw_onto [] input)
