-- ===== src/Invite/Url/Printed.antt =====
-- `ParseURL` reads back what `URL.String` prints.
use gsnet.Common.{
  ℕ, ◌<◌, ◌≡◌, ◌≢◌, refl, ap, sym, ◌∙◌, [], ◌∷◌, ◌++◌, true, false, Text, text_eq_iff, take, drop,
  length, all, arith, take-append, drop-append, length-append,
}
use mathlib.Core.List.{append_assoc}
use gsnet.Common.Int.{ℤ, pos, negsuc}
use gsnet.Strings.Decimal.{itoa, atoi, digits, is_digit, all-digits, atoi-digits}
use gsnet.Strings.Cut.{cut, lacks, cut-append, cut_last-append}
use gsnet.Invite.Url.{
  Url, ok, key_hash_len, is_port, read_secret, read_port, read_host, read_parts, parse_url,
  print_url,
}

pub record IsUrl (u : Url) : Type 0 where
  pub host_ne : u.host ≢ []
  pub no_slash : lacks b'/' u.host ≡ true
  pub port_ok : is_port u.port ≡ true
  pub hash_size : length u.key_hash ≡ key_hash_len
  pub cookie_ne : u.cookie ≢ []

all-digits-lacks :
    (c : ℕ) (s : Text) → is_digit c ≡ false → all is_digit s ≡ true → lacks c s ≡ true
all-digits-lacks c [] n h = refl
all-digits-lacks c (x ∷ s) n h = ground (arith, all-digits-lacks c s n)

lacks-both : (c : ℕ) (a b : Text) → lacks c a ≡ true → lacks c b ≡ true → lacks c (a ++ b) ≡ true
lacks-both c [] b h k = k
lacks-both c (x ∷ a) b h k = ground (arith, lacks-both c a b)

length-ne : (s : Text) → s ≢ [] → 0 < length s
length-ne [] h = absurd (h refl)
length-ne (c ∷ s) h = omega arith

read_secret-append : (u : Url) → IsUrl u → read_secret u.host u.port (u.key_hash ++ u.cookie) ≡ ok u
unfolding read_secret
read_secret-append u h =
    let whole = u.key_hash ++ u.cookie in
    let front : (take key_hash_len whole ≡ u.key_hash) =
      ap (λ n. take n whole) (sym h.hash_size) ∙ take-append u.key_hash u.cookie in
    let back : (drop key_hash_len whole ≡ u.cookie) =
      ap (λ n. drop n whole) (sym h.hash_size) ∙ drop-append u.key_hash u.cookie in
    rw (front, back)
      (ground (
        arith,
        h.hash_size,
        length-append u.key_hash u.cookie,
        length-ne u.cookie h.cookie_ne,
        text_eq_iff u.cookie [],
        h.cookie_ne,
      ))

read_port-print :
    (host : Text) (p : ℤ) (secret : Text)
    → is_port p ≡ true
    → read_port host (atoi (itoa p)) secret ≡ read_secret host p secret
unfolding read_port itoa
read_port-print host (pos n) secret h = rw (atoi-digits n (ground arith)) (ground arith)
read_port-print host (negsuc n) secret h = cc

itoa-lacks : (c : ℕ) (p : ℤ) → is_digit c ≡ false → is_port p ≡ true → lacks c (itoa p) ≡ true
unfolding itoa
itoa-lacks c (pos n) k h = all-digits-lacks c (digits n) k (all-digits n)
itoa-lacks c (negsuc n) k h = cc

-- Every URL with a host that is not empty and holds no slash, a port from 1 to 65535, a key hash of 43
-- bytes and a cookie that is not empty is read back from its printed form.
pub parse_url-print_url : (u : Url) → IsUrl u → parse_url (print_url u) ≡ ok u
unfolding parse_url print_url
parse_url-print_url u h =
    let front = u.host ++ (b':' ∷ itoa u.port) in
    let no_slash =
      lacks-both b'/' u.host (b':' ∷ itoa u.port) h.no_slash
        (ground (arith, itoa-lacks b'/' u.port refl h.port_ok)) in
    let at_slash =
      ap (cut b'/')
        (sym (append_assoc u.host (b':' ∷ itoa u.port) (b'/' ∷ (u.key_hash ++ u.cookie))))
      ∙ cut-append b'/' front (u.key_hash ++ u.cookie) no_slash in
    let at_colon =
      cut_last-append b':' u.host (itoa u.port) (itoa-lacks b':' u.port refl h.port_ok) in
    rw (at_slash, read_parts, at_colon, read_host)
      (ground (
        arith,
        text_eq_iff u.host [],
        h.host_ne,
        read_port-print u.host u.port (u.key_hash ++ u.cookie) h.port_ok,
        read_secret-append u h,
      ))
