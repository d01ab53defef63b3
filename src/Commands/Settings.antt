-- ===== src/Commands/Settings.antt =====
-- `cmdGet`, `cmdSet`, `cmdAdd` and `cmdDel`.
pub mod Kept
use gsnet.Common.{List, [], ◌∷◌, ◌++◌, ◌&&◌, ◌||◌, Bool, true, false, Text, text_eq, if◌then◌else◌}
use gsnet.Config.{Entry, render}
use gsnet.Config.Directory.{
  Loading, failed, loaded, not_there, cannot_read, cannot_list, bad, parse_file, load_directory,
}
use gsnet.Daemon.Paths.{Paths, conf_file}
use gsnet.Commands.{Store, Ran, stopped, done, and_then, loading, calling, usage, write_failed}

-- `err != nil && !os.IsNotExist(err)`: a file that is not there has no entries.
unfoldable pub or_nothing : Loading (List Entry) → Loading (List Entry)
or_nothing (failed not_there) = loaded []
or_nothing (failed cannot_read) = failed cannot_read
or_nothing (failed cannot_list) = failed cannot_list
or_nothing (failed (bad e)) = failed (bad e)
or_nothing (loaded es) = loaded es

-- `strings.EqualFold`, of two texts that need not be ASCII, is a parameter.
module _ (same : Text → Text → Bool) where
  -- `GetAll`, for a key that comes from the command line.
  unfoldable pub values : List Entry → Text → List Text
  values [] key = []
  values (e ∷ es) key = let rest = values es key in if same e.key key then e.value ∷ rest else rest

  -- The loop of `mutateConf`.
  unfoldable pub without : List Entry → Text → List Entry
  without [] key = []
  without (e ∷ es) key = let rest = without es key in if same e.key key then rest else e ∷ rest

  -- The loop of `cmdDel`.
  unfoldable pub deleted : List Entry → Text → Text → List Entry
  deleted [] key value = []
  deleted (e ∷ es) key value =
      let rest = deleted es key value in
      if same e.key key && (text_eq value [] || text_eq e.value value) then rest else e ∷ rest

  unfoldable pub changed : List Entry → Text → Text → Bool → List Entry
  unfolding without
  changed es key value replace =
      (if replace then without es key else es) ++ record { key = key; value = value } ∷ []

module _ {S : Type 0} (same : Text → Text → Bool) (st : Store S) (p : Paths) where
  -- `os.WriteFile(p.ConfFile(), []byte(entries.Render()), 0o644)`
  unfoldable pub write_conf : S → List Entry → Ran S (Unit {0})
  unfolding render conf_file
  write_conf s es = calling s write_failed (st.write_file s (conf_file p) (render es))

  -- `mutateConf`
  unfoldable pub mutate_conf : S → Text → Text → Bool → Ran S (Unit {0})
  unfolding write_conf changed or_nothing
  mutate_conf s key value replace =
      and_then (loading s (or_nothing (parse_file (st.disk s) (conf_file p))))
        (λ t es. write_conf t (changed same es key value replace))

  -- What `cmdGet` prints, one value on a line.
  unfoldable pub cmd_get : S → List Text → Ran S (List Text)
  unfolding load_directory values
  cmd_get s (key ∷ []) =
      and_then (loading s (load_directory (st.disk s) (conf_file p)))
        (λ t es. done t (values same es key))
  cmd_get s _ = stopped s usage

  unfoldable pub cmd_set : S → List Text → Ran S (Unit {0})
  unfolding mutate_conf
  cmd_set s (key ∷ value ∷ []) = mutate_conf s key value true
  cmd_set s _ = stopped s usage

  unfoldable pub cmd_add : S → List Text → Ran S (Unit {0})
  unfolding mutate_conf
  cmd_add s (key ∷ value ∷ []) = mutate_conf s key value false
  cmd_add s _ = stopped s usage

  unfoldable pub delete_from : S → Text → Text → Ran S (Unit {0})
  unfolding write_conf deleted
  delete_from s key value =
      and_then (loading s (parse_file (st.disk s) (conf_file p)))
        (λ t es. write_conf t (deleted same es key value))

  unfoldable pub cmd_del : S → List Text → Ran S (Unit {0})
  unfolding delete_from
  cmd_del s (key ∷ []) = delete_from s key []
  cmd_del s (key ∷ value ∷ []) = delete_from s key value
  cmd_del s _ = stopped s usage
