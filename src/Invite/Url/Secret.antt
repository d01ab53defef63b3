-- ===== src/Invite/Url/Secret.antt =====
-- A URL that was read holds a key hash.
use gsnet.Common.{
  ◌≡◌, ◌≢◌, [], ◌∷◌, false, Option, none, some, Text, text_eq, leb, length, take, drop, Bool-cases,
  inl, inr,
}
use gsnet.Common.Int.{ℤ}
use gsnet.Strings.Cut.{Parts, cut, cut_last}
use gsnet.Strings.Decimal.{atoi}
use gsnet.Invite.Url.{
  Url, ok, key_hash_len, is_port, read_secret, read_port, read_host, read_parts, parse_url,
}

long : (s : Text) → leb (length s) key_hash_len ≡ false → take key_hash_len s ≢ []
long [] h = λ e. cc h
long (c ∷ s) h = λ e. cc e

read_secret-key_hash :
    (host : Text) (port : ℤ) (secret : Text) (u : Url)
    → read_secret host port secret ≡ ok u
    → u.key_hash ≢ []
unfolding read_secret
read_secret-key_hash host port secret u h = elim (Bool-cases (leb (length secret) key_hash_len)) [
  | inl short ↦ cc (rw (short, read_secret) at h)
  | inr enough ↦ elim (Bool-cases (text_eq (drop key_hash_len secret) [])) [
    | inl gone ↦ cc (rw (enough, gone, read_secret) at h)
    | inr there ↦
        let same : take key_hash_len secret ≡ u.key_hash =
          cc (rw (enough, there, read_secret) at h) in
        rw (← same) (long secret enough)
  ]
]

read_port-key_hash :
    (host : Text) (o : Option ℤ) (secret : Text) (u : Url)
    → read_port host o secret ≡ ok u
    → u.key_hash ≢ []
unfolding read_port
read_port-key_hash host none secret u h = cc h
read_port-key_hash host (some port) secret u h = elim (Bool-cases (is_port port)) [
  | inl good ↦ read_secret-key_hash host port secret u (rw (good, read_port) at h)
  | inr bad ↦ cc (rw (bad, read_port) at h)
]

read_host-key_hash :
    (o : Parts) (secret : Text) (u : Url) → read_host o secret ≡ ok u → u.key_hash ≢ []
unfolding read_host
read_host-key_hash none secret u h = cc h
read_host-key_hash (some (host, port)) secret u h = elim (Bool-cases (text_eq host [])) [
  | inl gone ↦ cc (rw (gone, read_host) at h)
  | inr there ↦ read_port-key_hash host (atoi port) secret u (rw (there, read_host) at h)
]

read_parts-key_hash : (o : Parts) (u : Url) → read_parts o ≡ ok u → u.key_hash ≢ []
unfolding read_parts
read_parts-key_hash none u h = cc h
read_parts-key_hash (some (host_port, secret)) u h =
    read_host-key_hash (cut_last b':' host_port) secret u h

-- The key hash of a URL that `ParseURL` accepts is not empty.
pub parse_url-key_hash : (s : Text) (u : Url) → parse_url s ≡ ok u → u.key_hash ≢ []
unfolding parse_url
parse_url-key_hash s u h = read_parts-key_hash (cut b'/' s) u h
