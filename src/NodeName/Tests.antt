-- ===== src/NodeName/Tests.antt =====
-- The theorems on node names at host names with a dash.
use gsnet.Common.{◌≡◌, refl, ◌∷◌, none, some, codes}
use gsnet.NodeName.{ok, sanitize, System, expand}

abbrev os : System
os = record { lookup_env = λ name. none; hostname = some (codes "my-host") }

expands : expand os (b'$' ∷ codes "NODE") ≡ ok (codes "my_host")
unfolding expand sanitize
expands = refl
