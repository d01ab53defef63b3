-- ===== src/Sandbox/Tests.antt =====
-- A run at the level high on a kernel with the third ABI of Landlock.
use gsnet.Common.{◌≡◌, refl, List, [], ◌∷◌, ◌++◌, true, none, some, text_eq, codes}
use gsnet.Common.Int.{ℤ}
use gsnet.Strings.Decimal.{atoi}
use gsnet.Sandbox.{
  high, Options, System, Call, setgid, setuid, apply, at_level, leave_root, setuid_to, found,
  with_ids, apply_landlock, write_rules, conf_rule, rule, call, and_then,
}
use gsnet.Sandbox.Dropped.{Before, IsUser, moved, apply_drops}

abbrev options : Options
options = record {
  level = high;
  user = codes "nobody";
  conf_dir = codes "/etc/gsnet/n";
  write_paths = codes "/run" ∷ [];
}

abbrev system : System
system = record {
  abi = 3;
  works = λ before c. true;
  opens = λ path. true;
  is_missing = λ path. text_eq path (codes "/var");
  user_ids = λ name. some (codes "65534", codes "65533");
}

unfoldable calls : List Call
unfolding apply
calls = (apply system options).0

succeeds : apply system options ≡ (calls, none)
unfolding calls apply at_level leave_root setuid_to found with_ids apply_landlock write_rules
    conf_rule rule call and_then text_eq atoi
succeeds = refl

apply_drops_example :
    (first : List Call) × (uid gid : ℤ) × (calls
      ≡ first ++ (moved system options ++ (setgid gid ∷ setuid uid ∷ [])))
    × Before system options high first
    × IsUser system options uid gid
apply_drops_example = apply_drops system options (λ e. cc e) (λ e. cc e) succeeds
