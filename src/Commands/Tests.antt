-- ===== src/Commands/Tests.antt =====
-- The commands on one tree, and between two.
use gsnet.Common.{
  map, text_eq_iff, ◌≡◌, ◌∙◌, refl, ap, sym, List, [], ◌∷◌, true, Option, none, some, Text, text_eq,
  text_eq_refl, codes, if◌then◌else◌, arith,
}
use gsnet.Strings.Space.{IsTrimmed, is_space, trim_space}
use gsnet.Strings.Cut.{split_onto}
use gsnet.Strings.Fold.{equal_fold, fold, to_lower}
use gsnet.Dict.{get}
use gsnet.Config.{byte_len, Entry, get_first, parse, render}
use gsnet.Config.Keys.{canonical_key}
use gsnet.Config.Forms.{AllShort}
use gsnet.Config.Rendered.{IsKey, IsValue}
use gsnet.Config.Directory.{
  Disk, Opened, contents, missing, no_dir, loaded, parse_file, load_directory,
}
use gsnet.Daemon.Paths.{Paths, conf_file, hosts_dir, host_file, net_dir, join, clean, clean_onto}
use gsnet.Commands.{Store, IsLawful, done, and_then}
use gsnet.Commands.Settings.{
  values, changed, without, or_nothing, write_conf, mutate_conf, cmd_get, cmd_set,
}
use gsnet.Commands.Settings.Kept.{Prints, IsFold, set_then_get}
use gsnet.Commands.Exchange.{raw_onto, cmd_export, cmd_import, write_host, name_in, name_line}
use gsnet.Commands.Exchange.Passed.{NoName, Leaves, export_import}

abbrev pub Files : Type 0
Files = Text → Option Text

abbrev opened : Option Text → Opened
opened none = missing
opened (some t) = contents t

abbrev disk : Files → Disk
disk s = record {
  open_file = λ path. opened (s path);
  read_dir = λ path. no_dir;
  dir = λ path. path;
  join = λ a b. a;
}

abbrev put : Files → Text → Text → Files
put s path t = λ q. if text_eq path q then some t else s q

abbrev pub store : Store Files
store = record {
  disk = disk;
  write_file = λ s path t. some (put s path t);
  mkdir_all = λ s path. some s;
}

put_read : (s : Files) (path t : Text) → (disk (put s path t)).open_file path ≡ contents t
put_read s path t = ap (λ b. opened (if b then some t else s path)) (text_eq_refl path)

same_files : (s t : Files) → ◌≡◌ {A = Option Files} (some s) (some t) → s ≡ t
same_files s t h = cc h

pub store-IsLawful : IsLawful store
store-IsLawful = record {
  read-write = λ s t path text h.
      ap (λ (u : Files). (disk u).open_file path) (sym (same_files (put s path text) t h))
      ∙ put_read s path text;
}

abbrev pub here : Paths
here = record { conf_root = codes "/etc/gsnet"; netname = codes "n" }

abbrev there : Paths
there = record { conf_root = codes "/etc/gsnet"; netname = codes "m" }

abbrev pub tree : Files
tree path =
    if text_eq path (codes "/etc/gsnet/n/gsnet.conf")
    then some (codes "Name = alpha\nport = 1\nPort = 2\n")
    else if text_eq path (codes "/etc/gsnet/n/hosts/alpha")
    then some (codes "Port = 1\n")
    else none

abbrev entries : List Entry
entries =
    record { key = codes "Name"; value = codes "alpha" }
    ∷ record { key = codes "Port"; value = codes "1" }
    ∷ record { key = codes "Port"; value = codes "2" }
    ∷ []

unfoldable after : Files
unfolding conf_file changed render
after =
    put tree (conf_file here) (render (changed equal_fold entries (codes "Port") (codes "3") true))

held : or_nothing (parse_file (disk tree) (conf_file here)) ≡ loaded entries
unfolding or_nothing parse_file conf_file net_dir join clean clean_onto split_onto parse text_eq
    canonical_key get to_lower
held = refl

port-IsKey : IsKey (codes "Port")
unfolding is_space canonical_key get to_lower text_eq
port-IsKey = record {
  trimmed = record { starts = refl; ends = refl };
  ne = λ e. cc e;
  no_equals = refl;
  no_newline = refl;
  no_comment = refl;
  canonical = refl;
}

three-IsValue : IsValue (codes "3")
unfolding is_space
three-IsValue = record {
  trimmed = record { starts = refl; ends = refl };
  ne = λ e. cc e;
  no_newline = refl;
}

sets : cmd_set equal_fold store here tree (codes "Port" ∷ codes "3" ∷ []) ≡ done after tt
unfolding after cmd_set mutate_conf write_conf or_nothing parse_file conf_file net_dir join clean
    clean_onto split_onto parse text_eq canonical_key get to_lower
sets = refl

short : AllShort (changed equal_fold entries (codes "Port") (codes "3") true)
unfolding changed without equal_fold byte_len
short = (omega arith, (omega arith, tt))

equal_fold-IsFold : IsFold equal_fold
unfolding equal_fold
equal_fold-IsFold = record {
  reflexive = λ a. text_eq_refl (map fold a);
  left = λ a b c h. ap (λ s. text_eq s (map fold c)) ((text_eq_iff (map fold a) (map fold b)).0 h);
}

set_then_get_example :
    let new = changed equal_fold entries (codes "Port") (codes "3") true in
    (parse_file (disk after) (conf_file here) ≡ loaded new)
    × (values equal_fold new (codes "NAME") ≡ (
        if equal_fold (codes "Port") (codes "NAME")
        then codes "3" ∷ []
        else values equal_fold entries (codes "NAME")))
    × Prints (codes "3") (cmd_get equal_fold store here after (codes "Port" ∷ []))
set_then_get_example =
    set_then_get equal_fold equal_fold-IsFold store store-IsLawful here tree after (codes "Port")
      (codes "3") (codes "NAME") entries held port-IsKey three-IsValue short sets

configured : load_directory (disk tree) (conf_file here) ≡ loaded entries
unfolding load_directory parse_file conf_file net_dir join clean clean_onto split_onto parse text_eq
    canonical_key get to_lower
configured = refl

named : get_first entries (codes "Name") ≡ some (codes "alpha")
unfolding get_first equal_fold
named = refl

host_there : (disk tree).open_file (host_file here (codes "alpha")) ≡ contents (codes "Port = 1\n")
unfolding host_file hosts_dir net_dir join clean clean_onto split_onto text_eq
host_there = refl

alpha-IsTrimmed : IsTrimmed (codes "alpha")
unfolding is_space
alpha-IsTrimmed = record { starts = refl; ends = refl }

nothing_named : NoName (raw_onto [] (codes "Port = 1\n"))
unfolding raw_onto name_line name_in trim_space is_space equal_fold text_eq
nothing_named = (refl, tt)

export_import_example :
    let imported =
      and_then (cmd_export store here tree) (λ _ out. cmd_import store there after out) in
    (imported ≡ write_host store there after (codes "alpha") (raw_onto [] (codes "Port = 1\n")))
    × Leaves store there imported (host_file there (codes "alpha")) (codes "Port = 1\n")
export_import_example =
    export_import store store-IsLawful here there tree after entries (codes "alpha")
      (codes "Port = 1\n") configured named host_there alpha-IsTrimmed (λ e. cc e) refl
      nothing_named
