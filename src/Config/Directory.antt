-- ===== src/Config/Directory.antt =====
-- `ParseFile` and `LoadDirectory`. What the file system holds is a parameter.
use gsnet.Common.{
  ◌≡◌, ◌⊎◌, inl, inr, refl, sym, ap, ◌∙◌, List, [], ◌∷◌, ◌++◌, ◌&&◌, ◌||◌, not, Bool, true, false,
  some, Text, text_eq, codes, ltb, ◌==◌, if◌then◌else◌, arith, length, drop, ◌-◌, leb,
}
use mathlib.Core.List.{append-nil}
use gsnet.Config.{Entry, Error, Result, err, ok, parse, get_first}
use gsnet.Config.Forms.{AllForms, parse-AllForms}

-- What opening and reading a path gives.
pub data Opened : Type 0 where
  missing unreadable : Opened
  contents : Text → Opened

-- What `ReadDir` gives: names, with whether each is a directory.
pub data Listed : Type 0 where
  no_dir unlisted : Listed
  names : List (Text × Bool) → Listed

pub record Disk : Type 0 where
  pub open_file : Text → Opened
  pub read_dir : Text → Listed
  -- `filepath.Dir` and `filepath.Join`
  pub dir : Text → Text
  pub join : Text → Text → Text

pub data LoadError : Type 0 where
  not_there cannot_read cannot_list : LoadError
  bad : Error → LoadError

pub data Loading (A : Type 0) : Type 0 where
  failed : LoadError → Loading A
  loaded : A → Loading A

parsed : Result (List Entry) → Loading (List Entry)
parsed (err e) = failed (bad e)
parsed (ok es) = loaded es

parse_opened : Opened → Loading (List Entry)
unfolding parsed parse
parse_opened missing = failed not_there
parse_opened unreadable = failed cannot_read
parse_opened (contents s) = parsed (parse s)

-- `sort.Strings`, by code points.
text_less : Text → Text → Bool
text_less [] [] = false
text_less [] (y ∷ ys) = true
text_less (x ∷ xs) [] = false
text_less (x ∷ xs) (y ∷ ys) = let rest = text_less xs ys in ltb x y || x == y && rest

insert : Text → List Text → List Text
unfolding text_less
insert n [] = n ∷ []
insert n (m ∷ ms) = let rest = insert n ms in if text_less m n then m ∷ rest else n ∷ m ∷ ms

unfoldable pub sort : List Text → List Text
unfolding insert
sort [] = []
sort (n ∷ ns) = insert n (sort ns)

-- `strings.HasSuffix(s, t)`
has_suffix : Text → Text → Bool
has_suffix s t = leb (length t) (length s) && text_eq (drop (length s - length t) s) t

unfoldable pub conf_names : List (Text × Bool) → List Text
unfolding has_suffix
conf_names [] = []
conf_names (n ∷ ns) =
    let rest = conf_names ns in
    if n.1 || not (has_suffix n.0 (codes ".conf")) then rest else n.0 ∷ rest

module _ (disk : Disk) where
  -- `ParseFile`
  unfoldable pub parse_file : Text → Loading (List Entry)
  unfolding parse_opened
  parse_file path = parse_opened (disk.open_file path)

  -- The loop over the fragments.
  with_more : List Entry → Loading (List Entry) → Loading (List Entry)
  with_more es (failed e) = failed e
  with_more es (loaded fs) = loaded (es ++ fs)

  with_file : Loading (List Entry) → Loading (List Entry) → Loading (List Entry)
  unfolding with_more
  with_file (failed e) rest = failed e
  with_file (loaded es) rest = with_more es rest

  fragments : Text → List Text → Loading (List Entry)
  unfolding with_file parse_file
  fragments confd [] = loaded []
  fragments confd (n ∷ ns) = with_file (parse_file (disk.join confd n)) (fragments confd ns)

  with_listed : Text → List Entry → Listed → Loading (List Entry)
  unfolding fragments sort conf_names with_more
  with_listed confd es no_dir = loaded es
  with_listed confd es unlisted = failed cannot_list
  with_listed confd es (names ns) = with_more es (fragments confd (sort (conf_names ns)))

  with_primary : Text → Loading (List Entry) → Loading (List Entry)
  unfolding with_listed
  with_primary path (failed not_there) =
      let confd = disk.join (disk.dir path) (codes "conf.d") in
      with_listed confd [] (disk.read_dir confd)
  with_primary path (failed cannot_read) = failed cannot_read
  with_primary path (failed cannot_list) = failed cannot_list
  with_primary path (failed (bad e)) = failed (bad e)
  with_primary path (loaded es) =
      let confd = disk.join (disk.dir path) (codes "conf.d") in
      with_listed confd es (disk.read_dir confd)

  -- `LoadDirectory`
  unfoldable pub load_directory : Text → Loading (List Entry)
  unfolding with_primary parse_file
  load_directory path = with_primary path (parse_file path)

get_first-append :
    (es fs : List Entry) (k v : Text) → get_first es k ≡ some v → get_first (es ++ fs) k ≡ some v
unfolding get_first
get_first-append [] fs k v h = cc h
get_first-append (e ∷ es) fs k v h = ground (arith, get_first-append es fs k v)

module _ (disk : Disk) where
  -- These entries, and more behind them.
  abbrev Starts : List Entry → List Entry → Type 0
  Starts es all = (more : List Entry) × (all ≡ es ++ more)

  with_more-Starts :
      (es all : List Entry) (rest : Loading (List Entry))
      → with_more disk es rest ≡ loaded all
      → Starts es all
  unfolding with_more
  with_more-Starts es all (failed e) l = cc l
  with_more-Starts es all (loaded fs) l = let same : es ++ fs ≡ all = cc l in (fs, sym same)

  with_listed-Starts :
      (confd : Text) (es all : List Entry) (o : Listed)
      → with_listed disk confd es o ≡ loaded all
      → Starts es all
  unfolding with_listed
  with_listed-Starts confd es all no_dir l =
      let same : es ≡ all = cc l in ([], sym same ∙ sym (append-nil es))
  with_listed-Starts confd es all unlisted l = cc l
  with_listed-Starts confd es all (names ns) l =
      with_more-Starts es all (fragments disk confd (sort (conf_names ns))) l

  -- The entries of the primary file come first, whatever the fragments in conf.d say.
  pub load_directory-Starts :
      (path : Text) (es all : List Entry)
      → parse_file disk path ≡ loaded es
      → load_directory disk path ≡ loaded all
      → (more : List Entry) × (all ≡ es ++ more)
  unfolding load_directory with_primary
  load_directory-Starts path es all primary l =
      let confd = disk.join (disk.dir path) (codes "conf.d") in
      with_listed-Starts confd es all (disk.read_dir confd) (rw (primary, with_primary) at l)

  -- A key that the primary file sets has the value set there.
  get_first-load_directory :
      (path : Text) (es all : List Entry) (k v : Text)
      → parse_file disk path ≡ loaded es
      → get_first es k ≡ some v
      → load_directory disk path ≡ loaded all
      → get_first all k ≡ some v
  get_first-load_directory path es all k v primary h l =
      let (more, whole) = load_directory-Starts path es all primary l in
      ap (λ x. get_first x k) whole ∙ get_first-append es more k v h

  -- The entries of a file that can be read and parsed.
  pub parse_file-contents :
      (path s : Text) (es : List Entry)
      → disk.open_file path ≡ contents s
      → parse s ≡ ok es
      → parse_file disk path ≡ loaded es
  unfolding parse_file parse_opened parsed
  parse_file-contents path s es h e = rw (h, parse_opened) (rw (e, parsed))

Result-cases : {A : Type 0} (r : Result A) → ((e : Error) × (r ≡ err e)) ⊎ ((a : A) × (r ≡ ok a))
Result-cases (err e) = inl (e, refl)
Result-cases (ok a) = inr (a, refl)

parse_opened-AllForms : (o : Opened) (es : List Entry) → parse_opened o ≡ loaded es → AllForms es
unfolding parse_opened
parse_opened-AllForms missing es h = cc h
parse_opened-AllForms unreadable es h = cc h
parse_opened-AllForms (contents s) es h = elim (Result-cases (parse s)) [
  | inl (e, p) ↦ cc (rw (p, parsed) at h)
  | inr (fs, p) ↦
      let same : fs ≡ es = cc (rw (p, parsed) at h) in parse-AllForms s es (p ∙ ap ok same)
]

-- All entries that `ParseFile` returns have the form that `Render` keeps.
pub parse_file-AllForms :
    (disk : Disk) (path : Text) (es : List Entry) → parse_file disk path ≡ loaded es → AllForms es
unfolding parse_file
parse_file-AllForms disk path es h = parse_opened-AllForms (disk.open_file path) es h
