-- ===== src/Sandbox.antt =====
-- internal/sandbox: the level (sandbox.go), `Apply` and `setuidTo` (sandbox_linux.go), and the Landlock
-- ruleset (landlock_linux.go). A run is the list of the system calls it has made, the last at the end; the
-- kernel and the user database are parameters.
pub mod Rules
pub mod Dropped
mod Tests
use gsnet.Common.{
  ℕ, List, [], ◌∷◌, ◌++◌, ◌||◌, not, Bool, true, false, Option, none, some, Text, text_eq, codes,
  leb, ◌==◌, if◌then◌else◌,
}
use gsnet.Common.Int.{ℤ}
use gsnet.Strings.Decimal.{atoi}

pub data Level : Type 0 where
  off normal high : Level

-- `ParseLevel`; `none` is the error.
unfoldable pub parse_level : Text → Option Level
parse_level s =
    if text_eq s [] || text_eq s (codes "off")
    then some off
    else if text_eq s (codes "normal")
    then some normal
    else if text_eq s (codes "high")
    then some high
    else none

pub record Options : Type 0 where
  pub level : Level
  pub user : Text
  pub conf_dir : Text
  pub write_paths : List Text

-- `LANDLOCK_ACCESS_FS_EXECUTE` and so on.
pub data Right : Type 0 where
  execute write_file read_file read_dir remove_dir remove_file make_char make_dir make_reg : Right
  make_sock make_fifo make_block make_sym refer truncate : Right

pub data Call : Type 0 where
  create_ruleset : List Right → Call
  -- `landlock_add_rule` below a path that has been opened.
  add_rule : Text → List Right → Call
  no_new_privs restrict_self : Call
  chdir : Text → Call
  setgid setuid : ℤ → Call

pub data Problem : Type 0 where
  no_landlock call_failed no_user bad_id : Problem
  unopened : Text → Problem

-- The kernel's ABI of Landlock, 0 for none; whether a call succeeds after those before it; whether a path
-- can be opened, and whether it is missing; `Uid` and `Gid` of a user.
pub record System : Type 0 where
  pub abi : ℕ
  pub works : List Call → Call → Bool
  pub opens : Text → Bool
  pub is_missing : Text → Bool
  pub user_ids : Text → Option (Text × Text)

abbrev pub Run : Type 0
Run = List Call × Option Problem

-- `if err != nil { return err }`, and then the rest.
unfoldable pub and_then : Run → (List Call → Run) → Run
and_then (cs, some e) next = (cs, some e)
and_then (cs, none) next = next cs

-- The mask that the ruleset handles.
unfoldable pub access : ℕ → List Right
access abi =
    execute
    ∷ write_file
    ∷ read_file
    ∷ read_dir
    ∷ remove_dir
    ∷ remove_file
    ∷ make_char
    ∷ make_dir
    ∷ make_reg
    ∷ make_sock
    ∷ make_fifo
    ∷ make_block
    ∷ make_sym
    ∷ ((if leb 2 abi then refer ∷ [] else []) ++ (if leb 3 abi then truncate ∷ [] else []))

abbrev pub read_access : List Right
read_access = read_file ∷ read_dir ∷ []

unfoldable pub write_access : ℕ → List Right
write_access abi =
    read_access ++ (write_file ∷ make_reg ∷ remove_file ∷ (if leb 3 abi then truncate ∷ [] else []))

module _ (sys : System) where
  unfoldable pub call : List Call → Call → Run
  call cs c = (cs ++ c ∷ [], if sys.works cs c then none else some call_failed)

  -- `addRule`
  unfoldable pub rule : List Call → Text → List Right → Run
  unfolding call
  rule cs path mask =
      if sys.opens path then call cs (add_rule path mask) else (cs, some (unopened path))

  unfoldable pub conf_rule : List Call → Text → Run
  unfolding rule
  conf_rule cs dir = if not (text_eq dir []) then rule cs dir read_access else (cs, none)

  -- The loop over the paths.
  unfoldable pub write_rules : List Call → List Text → Run
  unfolding rule and_then write_access
  write_rules cs [] = (cs, none)
  write_rules cs (p ∷ ps) = elim (sys.is_missing p) [
    | true ↦ write_rules cs ps
    | false ↦ and_then (rule cs p (write_access sys.abi)) (λ ds. write_rules ds ps)
  ]

  -- `applyLandlock`
  unfoldable pub apply_landlock : List Call → Text → List Text → Run
  unfolding call conf_rule write_rules and_then access
  apply_landlock cs dir paths =
      if sys.abi == 0
      then (cs, some no_landlock)
      else and_then (call cs (create_ruleset (access sys.abi))) (λ cs1.
        and_then (conf_rule cs1 dir) (λ cs2.
          and_then (write_rules cs2 paths)
            (λ cs3. and_then (call cs3 no_new_privs) (λ cs4. call cs4 restrict_self))))

  with_ids : List Call → Option ℤ → Option ℤ → Run
  unfolding call and_then
  with_ids cs none gid = (cs, some bad_id)
  with_ids cs (some uid) none = (cs, some bad_id)
  with_ids cs (some uid) (some gid) = and_then (call cs (setgid gid)) (λ ds. call ds (setuid uid))

  found : List Call → Option (Text × Text) → Run
  unfolding with_ids
  found cs none = (cs, some no_user)
  found cs (some (uid, gid)) = with_ids cs (atoi uid) (atoi gid)

  -- `setuidTo`
  unfoldable pub setuid_to : List Call → Text → Run
  unfolding found
  setuid_to cs name = found cs (sys.user_ids name)

  -- From `os.Chdir` on.
  unfoldable pub leave_root : Options → List Call → Run
  unfolding and_then call setuid_to
  leave_root o cs =
      and_then (if not (text_eq o.conf_dir []) then call cs (chdir o.conf_dir) else (cs, none))
        (λ ds. if not (text_eq o.user []) then setuid_to ds o.user else (ds, none))

  at_level : Level → Options → Run
  unfolding leave_root apply_landlock and_then
  at_level off o = ([], none)
  at_level normal o = leave_root o []
  at_level high o = and_then (apply_landlock [] o.conf_dir o.write_paths) (leave_root o)

  -- `Apply`
  unfoldable pub apply : Options → Run
  unfolding at_level
  apply o = at_level o.level o
