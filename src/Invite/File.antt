-- ===== src/Invite/File.antt =====
-- internal/invite/file.go: the invitation file.
pub mod Blocks
pub mod Filled
pub mod Rendered
use gsnet.Common.{
  ℕ, List, [], ◌∷◌, ◌++◌, ◌&&◌, not, Bool, true, false, Option, none, some, Text, text_eq, codes,
  leb, ◌==◌, if◌then◌else◌,
}
use gsnet.Strings.Space.{trim_space}
use gsnet.Strings.Fold.{equal_fold}
use gsnet.Config.{Entry, parse, get_first, is_comment, drop_cr, byte_len, max_line, lines_onto}
use gsnet.Config

pub record Block : Type 0 where
  pub name : Text
  pub address : Text
  pub connect_to : List Text
  pub ifconfig : List Text
  pub route : List Text
  pub other : List Entry

pub record File : Type 0 where
  pub netname : Text
  pub invitee : Block
  pub hosts : List Block

pub data Error : Type 0 where
  bad_line : Config.Error → Error
  not_single line_too_long empty_file missing_name host_missing_name : Error

pub data Result {ℓ} (A : Type ℓ) : Type ℓ where
  err : Error → Result A
  ok : A → Result A

abbrev pub and_then {ℓ κ} : {A : Type ℓ} {B : Type κ} → Result A → (A → Result B) → Result B
and_then (err e) next = err e
and_then (ok a) next = next a

abbrev pub is_key : Text → Entry → Bool
is_key k e = equal_fold e.key k

single : Config.Result (List Entry) → Result Entry
single (Config.err e) = err (bad_line e)
single (Config.ok []) = err not_single
single (Config.ok (e ∷ [])) = ok e
single (Config.ok (e ∷ f ∷ es)) = err not_single

-- `parseConfigLine`
unfoldable pub parse_config_line : Text → Result Entry
unfolding single parse
parse_config_line s = single (parse s)

-- `flush`, in front of the blocks that follow.
unfoldable pub flush : List Entry → List (List Entry) → List (List Entry)
flush [] bs = bs
flush (e ∷ es) bs = (e ∷ es) ∷ bs

is_nil : List Entry → Bool
is_nil [] = true
is_nil (e ∷ es) = false

-- The loop of `ParseFile`, with the block read so far.
unfoldable pub blocks_onto : List Entry → List Text → Result (List (List Entry))
unfolding parse_config_line flush is_nil drop_cr trim_space
blocks_onto current [] = ok (flush current [])
blocks_onto current (raw ∷ rest) =
    let line = trim_space (drop_cr raw) in
    let skip = blocks_onto current rest in
    let next_block = and_then (blocks_onto [] rest) (λ bs. ok (flush current bs)) in
    let take_it = and_then (parse_config_line line) (λ e.
      let named = and_then (blocks_onto (e ∷ []) rest) (λ bs. ok (flush current bs)) in
      let more = blocks_onto (current ++ (e ∷ [])) rest in
      if is_key (codes "Name") e && not (is_nil current) then named else more) in
    if leb max_line (byte_len raw)
    then err line_too_long
    else if text_eq line []
    then skip
    else if is_comment line
    then next_block
    else take_it

abbrev pub no_block : Block
no_block = record {
  name = [];
  address = [];
  connect_to = [];
  ifconfig = [];
  route = [];
  other = [];
}

-- The body of the loop of `blockFromEntries`.
unfoldable pub add_entry : Block → Entry → Block
add_entry b e =
    if is_key (codes "Name") e
    then record b { name = e.value }
    else if is_key (codes "Address") e
    then record b { address = e.value }
    else if is_key (codes "ConnectTo") e
    then record b { connect_to = b.connect_to ++ (e.value ∷ []) }
    else if is_key (codes "Ifconfig") e
    then record b { ifconfig = b.ifconfig ++ (e.value ∷ []) }
    else if is_key (codes "Route") e
    then record b { route = b.route ++ (e.value ∷ []) }
    else if is_key (codes "Netname") e
    then b
    else record b { other = b.other ++ (e ∷ []) }

-- `blockFromEntries`, on the block filled so far.
unfoldable pub block_onto : Block → List Entry → Block
unfolding add_entry
block_onto b [] = b
block_onto b (e ∷ es) = block_onto (add_entry b e) es

pub or_empty : Option Text → Text
or_empty none = []
or_empty (some v) = v

-- The loop over the blocks behind the first.
unfoldable pub hosts_of : List (List Entry) → Result (List Block)
unfolding block_onto
hosts_of [] = ok []
hosts_of (b ∷ bs) =
    let host = block_onto no_block b in
    let rest = and_then (hosts_of bs) (λ hs. ok (host ∷ hs)) in
    if text_eq host.name [] then err host_missing_name else rest

unfoldable pub file_of : List (List Entry) → Result File
unfolding hosts_of or_empty get_first block_onto
file_of [] = err empty_file
file_of (b ∷ bs) =
    let first = block_onto no_block b in
    if text_eq first.name []
    then err missing_name
    else and_then (hosts_of bs) (λ hs.
      ok (record {
        netname = or_empty (get_first b (codes "Netname"));
        invitee = first;
        hosts = hs;
      }))

-- `ParseFile`, on the whole input.
unfoldable pub parse_file : Text → Result File
unfolding blocks_onto file_of lines_onto
parse_file s = and_then (blocks_onto [] (lines_onto [] s)) file_of

-- `fmt.Fprintf(&b, "%s = %s\n", key, value)`
abbrev pub field : Text → Text → Text
field k v = k ++ (b' ' ∷ b'=' ∷ b' ' ∷ v ++ (b'\n' ∷ []))

unfoldable pub fields_of : Text → List Text → Text
fields_of k [] = []
fields_of k (v ∷ vs) = field k v ++ fields_of k vs

unfoldable pub others : List Entry → Text
others [] = []
others (e ∷ es) = field e.key e.value ++ others es

unfoldable pub field_if_set : Text → Text → Text
field_if_set k v = if text_eq v [] then [] else field k v

-- `writeBlock`; the name of the network is empty where it is not included.
unfoldable pub write_block : Text → Block → Text
unfolding fields_of others field_if_set
write_block net b =
    field (codes "Name") b.name
    ++ (field_if_set (codes "Netname") net
        ++ (fields_of (codes "ConnectTo") b.connect_to
            ++ (field_if_set (codes "Address") b.address
                ++ (fields_of (codes "Ifconfig") b.ifconfig
                    ++ (fields_of (codes "Route") b.route ++ others b.other)))))

abbrev pub separator : Text
separator = codes "#---------------------------------------#"

unfoldable pub write_hosts : List Block → Text
unfolding write_block
write_hosts [] = []
write_hosts (h ∷ hs) = separator ++ (b'\n' ∷ (write_block [] h ++ write_hosts hs))

-- `Render`
unfoldable pub render : File → Text
unfolding write_hosts
render f = write_block f.netname f.invitee ++ write_hosts f.hosts
