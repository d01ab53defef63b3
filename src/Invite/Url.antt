-- ===== src/Invite/Url.antt =====
-- internal/invite/url.go: invitation URLs `host:port/<keyhash><cookie>`. A text is the list of its bytes.
pub mod Printed
pub mod Secret
use gsnet.Common.{
  ℕ, ◌+◌, List, [], ◌∷◌, ◌++◌, ◌||◌, ◌&&◌, Bool, true, false, Option, none, some, Text, text_eq,
  leb, ltb, ◌==◌, if◌then◌else◌, take, drop, length,
}
use gsnet.Common.Int.{ℤ, pos, negsuc, is_nonpos}
use gsnet.Strings.Decimal.{itoa, atoi}
use gsnet.Strings.Cut.{Parts, cut, cut_last}

abbrev pub key_hash_len : ℕ
key_hash_len = 43

pub record Url : Type 0 where
  pub host : Text
  pub port : ℤ
  pub key_hash : Text
  pub cookie : Text

pub data Error : Type 0 where
  missing_slash missing_port empty_host invalid_port short_secret empty_cookie : Error

pub data Result : Type 0 where
  ok : Url → Result
  err : Error → Result

-- `BuildURL`, given the hash of the public key.
pub build_url : Text → ℤ → Text → Text → Url
build_url host port hash cookie = record {
  host = host;
  port = port;
  key_hash = hash;
  cookie = cookie;
}

abbrev is_port : ℤ → Bool
is_port (pos n) = ltb 0 n && leb n 65535
is_port (negsuc n) = false

read_secret : Text → ℤ → Text → Result
read_secret host port secret =
    let key_hash = take key_hash_len secret in
    let cookie = drop key_hash_len secret in
    if leb (length secret) key_hash_len
    then err short_secret
    else if text_eq cookie []
    then err empty_cookie
    else ok (record { host = host; port = port; key_hash = key_hash; cookie = cookie })

read_port : Text → Option ℤ → Text → Result
unfolding read_secret
read_port host none secret = err invalid_port
read_port host (some port) secret =
    if is_port port then read_secret host port secret else err invalid_port

read_host : Parts → Text → Result
unfolding read_port
read_host none secret = err missing_port
read_host (some (host, port)) secret =
    if text_eq host [] then err empty_host else read_port host (atoi port) secret

read_parts : Parts → Result
unfolding read_host
read_parts none = err missing_slash
read_parts (some (host_port, secret)) = read_host (cut_last b':' host_port) secret

-- `ParseURL`
unfoldable pub parse_url : Text → Result
unfolding read_parts cut cut_last atoi
parse_url s = read_parts (cut b'/' s)

-- `URL.String`
unfoldable pub print_url : Url → Text
unfolding itoa
print_url u = u.host ++ (b':' ∷ (itoa u.port ++ (b'/' ∷ (u.key_hash ++ u.cookie))))
