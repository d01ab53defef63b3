-- ===== src/Daemon/Paths.antt =====
-- internal/daemon/paths.go, with what it takes of path/filepath: `Join` and `Clean` on slash-separated
-- paths.
use gsnet.Common.{List, [], ◌∷◌, ◌++◌, Bool, false, Text, text_eq, codes, ◌==◌, ◌||◌, if◌then◌else◌}
use gsnet.Strings.Cut.{split, split_onto}

-- `..` on the elements kept so far, the last first. Above the root there is only the root.
up : Bool → List Text → List Text
up rooted [] = if rooted then [] else codes ".." ∷ []
up rooted (e ∷ es) = if text_eq e (codes "..") then codes ".." ∷ e ∷ es else es

-- The loop of `Clean` over the elements of a path.
unfoldable pub clean_onto : Bool → List Text → List Text → List Text
unfolding up
clean_onto rooted kept [] = kept
clean_onto rooted kept (e ∷ es) =
    let same = clean_onto rooted kept es in
    let back = clean_onto rooted (up rooted kept) es in
    let on = clean_onto rooted (e ∷ kept) es in
    if text_eq e [] || text_eq e (codes ".")
    then same
    else if text_eq e (codes "..")
    then back
    else on

-- The elements, the last first, with slashes between them and this behind them.
slashed : Text → List Text → Text
slashed behind [] = behind
slashed behind (e ∷ []) = e ++ behind
slashed behind (e ∷ d ∷ ds) = slashed (b'/' ∷ (e ++ behind)) (d ∷ ds)

is_rooted : Text → Bool
is_rooted [] = false
is_rooted (c ∷ cs) = c == b'/'

or_dot : Text → Text
or_dot [] = codes "."
or_dot (c ∷ cs) = c ∷ cs

-- `filepath.Clean`
unfoldable pub clean : Text → Text
unfolding clean_onto slashed is_rooted or_dot split_onto
clean s =
    let body = slashed [] (clean_onto (is_rooted s) [] (split b'/' s)) in
    if is_rooted s then b'/' ∷ body else or_dot body

-- `filepath.Join` of two elements.
unfoldable pub join : Text → Text → Text
unfolding clean
join [] [] = []
join [] (d ∷ ds) = clean (d ∷ ds)
join (c ∷ cs) [] = clean (c ∷ cs)
join (c ∷ cs) (d ∷ ds) = clean ((c ∷ cs) ++ (b'/' ∷ d ∷ ds))

pub record Paths : Type 0 where
  pub conf_root : Text
  pub netname : Text

unfoldable pub net_dir : Paths → Text
unfolding join
net_dir p = if text_eq p.netname [] then p.conf_root else join p.conf_root p.netname

unfoldable pub conf_file : Paths → Text
unfolding join net_dir
conf_file p = join (net_dir p) (codes "gsnet.conf")

unfoldable pub hosts_dir : Paths → Text
unfolding join net_dir
hosts_dir p = join (net_dir p) (codes "hosts")

unfoldable pub host_file : Paths → Text → Text
unfolding join hosts_dir
host_file p name = join (hosts_dir p) name

unfoldable pub invitations_dir : Paths → Text
unfolding join net_dir
invitations_dir p = join (net_dir p) (codes "invitations")

unfoldable pub ed25519_private : Paths → Text
unfolding join net_dir
ed25519_private p = join (net_dir p) (codes "ed25519_key.priv")

unfoldable pub wg_private : Paths → Text
unfolding join net_dir
wg_private p = join (net_dir p) (codes "wg.priv")

unfoldable pub pid_file : Paths → Text → Text
unfolding join
pid_file p run_dir =
    if text_eq p.netname []
    then join run_dir (codes "gsnet.pid")
    else join run_dir (codes "gsnet." ++ (p.netname ++ codes ".pid"))

unfoldable pub control_socket : Paths → Text → Text
unfolding join
control_socket p run_dir =
    if text_eq p.netname []
    then join run_dir (codes "gsnet.socket")
    else join run_dir (codes "gsnet." ++ (p.netname ++ codes ".socket"))
