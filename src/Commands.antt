-- ===== src/Commands.antt =====
-- cmd/gsnet/main.go: the commands of the control program. The file system is a parameter over a type of
-- its states. A command that stops with an error leaves what it had written until then.
pub mod Settings
pub mod Exchange
pub mod Remote
pub mod Invitation
pub mod Tests
use gsnet.Common.{◌≡◌, List, Option, none, some, Text}
use gsnet.Config.Directory.{Disk, contents, LoadError, Loading, failed, loaded}

-- What can be read, and the calls of package os that write. `none` stands for an error.
pub record Store (S : Type 0) : Type 0 where
  pub disk : S → Disk
  pub write_file : S → Text → Text → Option S
  pub mkdir_all : S → Text → Option S

-- A file that has been written is read back.
pub record IsLawful {S : Type 0} (st : Store S) : Type 0 where
  pub read-write :
      (s t : S) (path text : Text)
      → st.write_file s path text ≡ some t
      → (st.disk t).open_file path ≡ contents text

pub data Problem : Type 0 where
  usage unknown_command write_failed mkdir_failed no_name : Problem
  unloaded : LoadError → Problem

pub data Ran (S : Type 0) (A : Type 0) : Type 0 where
  stopped : S → Problem → Ran S A
  done : S → A → Ran S A

-- `if err != nil { return err }`, and then the rest.
abbrev pub and_then : {S : Type 0} {A : Type 0} {B : Type 0} → Ran S A → (S → A → Ran S B) → Ran S B
and_then (stopped s e) next = stopped s e
and_then (done s a) next = next s a

abbrev pub loading : {S : Type 0} {A : Type 0} → S → Loading A → Ran S A
loading s (failed e) = stopped s (unloaded e)
loading s (loaded a) = done s a

-- A call of package os that may fail.
abbrev pub calling : {S : Type 0} → S → Problem → Option S → Ran S (Unit {0})
calling s e none = stopped s e
calling s e (some t) = done t tt
