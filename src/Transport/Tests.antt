-- ===== src/Transport/Tests.antt =====
-- Primitives that keep their promises, and one fetch with them.
use gsnet.Common.{
  ℕ, ◌+◌, ◌-◌, ◌≤◌, ◌≡◌, ◌≢◌, refl, ap, sym, [], ◌∷◌, ◌++◌, map, true, Option, none, some, Text,
  text_eq, codes, length, arith,
}
use gsnet.Strings.Space.{is_space, trim_space}
use gsnet.Strings.Fields.{IsWord, plain}
use gsnet.Strings.Fold.{equal_fold, to_lower}
use gsnet.Config.{parse, get_first}
use gsnet.Config.Keys.{canonical_key}
use gsnet.Dict.{get}
use gsnet.Invite.File.{parse_file}
use gsnet.Invite.Exchange.{Bytes, Crypto, Ephemeral, new_ephemeral}
use gsnet.Transport.{Server, file, replied, handle_inbound}
use gsnet.Transport.Client.{fetched, find_inviter_ed25519_pub, round_trip, get_command_line}
use gsnet.Transport.Client.Checked.{IsVouched, round_trip-IsVouched}
use gsnet.Transport.Served.{IsSound}
use gsnet.Transport.Exchanged.{fetch_round_trip}
use gsnet.Transport.Conns.{
  Pool, Reachable, empty, step, greeted, dialled, dial, track, outbound_count,
  outbound_count-Reachable,
}

abbrev pub key : Bytes
key =
    1 ∷ 2 ∷ 3 ∷ 4 ∷ 5 ∷ 6 ∷ 7 ∷ 8 ∷ 1 ∷ 2 ∷ 3 ∷ 4 ∷ 5 ∷ 6 ∷ 7 ∷ 8 ∷ 1 ∷ 2 ∷ 3 ∷ 4 ∷ 5 ∷ 6 ∷ 7 ∷ 8
    ∷ 1 ∷ 2 ∷ 3 ∷ 4 ∷ 5 ∷ 6 ∷ 7 ∷ 8 ∷ []

abbrev opened : Bytes → Option Bytes
opened [] = none
opened (b ∷ bs) = some bs

-- Bytes as letters far from every space.
abbrev pub spell : Bytes → Text
spell bs = map (λ b. b + 20000) bs

abbrev unspell : Text → Bytes
unspell t = map (λ c. c - 20000) t

abbrev pub toy : Crypto
toy = record {
  x25519 = λ a b. some key;
  basepoint = key;
  hkdf = λ s t i. key;
  cipher_seal = λ k m. some (0 ∷ m);
  cipher_open = λ k ct. opened ct;
  base64_encode = λ b. spell b;
  base64_decode = λ t. some (unspell t);
  ed_sign = λ k m. 1 ∷ [];
  ed_verify = λ k m s. true;
  ed_public = λ k. key;
  key_hash = λ k. codes "hash";
  utf8 = λ t. t;
  text = λ b. b;
}

unspell-spell : (b : Bytes) → unspell (spell b) ≡ b
unspell-spell [] = refl
unspell-spell (x ∷ b) = ground (arith, unspell-spell b)

spell-plain : (b : Bytes) → plain (spell b) ≡ true
unfolding is_space
spell-plain [] = refl
spell-plain (x ∷ b) = ground (arith, spell-plain b)

spell_ne : (b : Bytes) → b ≢ [] → spell b ≢ []
spell_ne [] h = absurd (h refl)
spell_ne (x ∷ b) h = λ e. cc e

key_length : (p : Bytes) → ◌≡◌ {A = Option Bytes} (some key) (some p) → length p ≡ 32
key_length p h = let e : key ≡ p = cc h in ap length (sym e)

opens_again : (m ct : Bytes) → ◌≡◌ {A = Option Bytes} (some (0 ∷ m)) (some ct) → opened ct ≡ some m
opens_again m ct h = let e : 0 ∷ m ≡ ct = cc h in ap opened (sym e)

two_lists : (k m : Bytes) → ◌≡◌ {A = Option Bytes} (some (0 ∷ m)) (some []) → ⊥
two_lists k m h = let e : ◌≡◌ {A = Bytes} (0 ∷ m) [] = cc h in cc e

toy-IsSound : IsSound toy
toy-IsSound = record {
  agree = λ a b p q hp hq. (key, refl, refl);
  public_size = λ a p h. key_length p h;
  seals = λ s t i m. (0 ∷ m, refl);
  opens = λ k m ct h. opens_again m ct h;
  decodes = λ b. ap some (unspell-spell b);
  word = λ b h. record { ne = spell_ne b h; plain_chars = spell-plain b };
  sealed_ne = λ k m e. two_lists k m e;
  verifies = λ k m. refl;
  signature_ne = λ k m e. cc e;
  key_size = λ k. refl;
}

abbrev pub invitation : Text
invitation =
    codes "Name = beta\n#---\nName = alpha\nEd25519PublicKey = " ++ (spell key ++ codes "\n")

abbrev inviter : Server ℕ
inviter = record {
  ed_priv = 5 ∷ [];
  invite_get = some (λ n cookie. file invitation);
  invite_join = none;
  bad_pub = λ t. t;
  bad_base64 = λ t. t;
  no_ephemeral = [];
  no_key = [];
  no_seal = [];
}

abbrev pub pair : Ephemeral
pair = record { public = key; priv = 9 ∷ [] }

made : new_ephemeral toy (some (9 ∷ [])) ≡ some pair
unfolding new_ephemeral
made = refl

cookie-IsWord : IsWord (codes "secret")
unfolding is_space
cookie-IsWord = record { ne = λ e. cc e; plain_chars = refl }

named : find_inviter_ed25519_pub toy invitation ≡ some key
unfolding find_inviter_ed25519_pub parse_file parse text_eq canonical_key get to_lower equal_fold
    get_first trim_space is_space
named = refl

fetched_once :
    (reply : Text) × (handle_inbound toy inviter 0
        (some (9 ∷ []))
        (get_command_line toy pair (codes "secret"))
      ≡ (0, replied reply))
    × (round_trip toy pair (codes "secret") (codes "hash") reply ≡ fetched invitation)
fetched_once =
    fetch_round_trip toy inviter toy-IsSound 0 (λ n cookie. file invitation) (9 ∷ []) (9 ∷ []) pair
      pair (codes "secret") (codes "hash") invitation cookie-IsWord made made refl refl named refl

fetch_round_trip_example :
    (reply : Text) × (handle_inbound toy inviter 0
        (some (9 ∷ []))
        (get_command_line toy pair (codes "secret"))
      ≡ (0, replied reply))
    × (round_trip toy pair (codes "secret") (codes "hash") reply ≡ fetched invitation)
fetch_round_trip_example =
    fetch_round_trip toy inviter toy-IsSound 0 (λ n cookie. file invitation) (9 ∷ []) (9 ∷ []) pair
      pair (codes "secret") (codes "hash") invitation cookie-IsWord made made refl refl named refl

round_trip-IsVouched_example : IsVouched toy pair (codes "secret") (codes "hash") invitation
round_trip-IsVouched_example =
    round_trip-IsVouched toy pair (codes "secret") (codes "hash") fetched_once.0 invitation
      (λ e. cc e) fetched_once.2

-- A peer greets, and two calls of `Dial` go to one address.
abbrev last_pool : Pool
last_pool =
    (dial (dial (track [] (record { id = 1; outbound_addr = [] })) (codes "b:1") (some 2)).0
      (codes "b:1") (some 3)).0

last_pool-Reachable : Reachable last_pool
last_pool-Reachable =
    step
      (step (step empty (greeted [] 1))
        (dialled (track [] (record { id = 1; outbound_addr = [] })) (codes "b:1") (some 2)))
      (dialled (dial (track [] (record { id = 1; outbound_addr = [] })) (codes "b:1") (some 2)).0
        (codes "b:1") (some 3))

outbound_count-Reachable_example : outbound_count last_pool (codes "b:1") ≤ 1
outbound_count-Reachable_example =
    outbound_count-Reachable last_pool (codes "b:1") (λ e. cc e) last_pool-Reachable
