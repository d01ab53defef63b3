-- ===== src/Gossip/Sample.antt =====
-- Concrete functions in place of the packages the plane calls, for tests: fields behind their length, a
-- signature that is the key and the message, and a broadcast that succeeds.
use gsnet.Common.{
  zero, true, ◌≡◌, refl, ap, ◌∙◌, [], ◌∷◌, ◌++◌, none, some, Text, text_eq, text_eq_refl, take,
  drop, length, take-append, drop-append,
}
use gsnet.Common.Int.{ℤ, pos, negsuc}
use gsnet.Gossip.Message.{Bytes, Hello, AddEdge}
use gsnet.Gossip.Outside.{Outside, IsJson, KeyPair}

abbrev with_field : Text → Bytes → Bytes
with_field s rest = length s ∷ (s ++ rest)

abbrev field : Bytes → Text
field [] = []
field (n ∷ cs) = take n cs

abbrev after : Bytes → Bytes
after [] = []
after (n ∷ cs) = drop n cs

field-with : (s : Text) (rest : Bytes) → field (with_field s rest) ≡ s
field-with s rest = take-append s rest

after-with : (s : Text) (rest : Bytes) → after (with_field s rest) ≡ rest
after-with s rest = drop-append s rest

abbrev int_bytes : ℤ → Bytes
int_bytes (pos n) = 0 ∷ n ∷ []
int_bytes (negsuc n) = 1 ∷ n ∷ []

abbrev bytes_int : Bytes → ℤ
bytes_int [] = pos 0
bytes_int (a ∷ []) = pos 0
bytes_int (zero ∷ n ∷ cs) = pos n
bytes_int (a ∷ n ∷ cs) = negsuc n

bytes_int-int_bytes : (z : ℤ) → bytes_int (int_bytes z) ≡ z
bytes_int-int_bytes (pos n) = refl
bytes_int-int_bytes (negsuc n) = refl

abbrev write_two : Text → Text → Bytes → Bytes
write_two a b rest = with_field a (with_field b rest)

second-two : (a b : Text) (rest : Bytes) → field (after (write_two a b rest)) ≡ b
second-two a b rest = ap field (after-with a (with_field b rest)) ∙ field-with b rest

rest-two : (a b : Text) (rest : Bytes) → after (after (write_two a b rest)) ≡ rest
rest-two a b rest = ap after (after-with a (with_field b rest)) ∙ after-with b rest

abbrev write_hello : Hello → Bytes
write_hello h =
    write_two h.name h.ed25519_public
      (write_two h.wg_public h.endpoint (write_two h.inner_addr h.underlay_addr []))

abbrev read_hello : Bytes → Hello
read_hello b =
    let c = after (after b) in
    let d = after (after c) in
    record {
      name = field b;
      ed25519_public = field (after b);
      wg_public = field c;
      endpoint = field (after c);
      inner_addr = field d;
      underlay_addr = field (after d);
    }

abbrev write_add_edge : AddEdge → Bytes
write_add_edge e = write_two e.from e.to (int_bytes e.weight)

abbrev read_add_edge : Bytes → AddEdge
read_add_edge b = record {
  from = field b;
  to = field (after b);
  weight = bytes_int (after (after b));
}

read-write_hello : (h : Hello) → read_hello (write_hello h) ≡ h
read-write_hello h =
    let three = write_two h.inner_addr h.underlay_addr [] in
    let two = write_two h.wg_public h.endpoint three in
    rw
      (
        field-with h.name (with_field h.ed25519_public two),
        second-two h.name h.ed25519_public two,
        rest-two h.name h.ed25519_public two,
        field-with h.wg_public (with_field h.endpoint three),
        second-two h.wg_public h.endpoint three,
        rest-two h.wg_public h.endpoint three,
        field-with h.inner_addr (with_field h.underlay_addr []),
        second-two h.inner_addr h.underlay_addr [],
      )
      refl

read-write_add_edge : (e : AddEdge) → read_add_edge (write_add_edge e) ≡ e
read-write_add_edge e =
    rw
      (
        field-with e.from (with_field e.to (int_bytes e.weight)),
        second-two e.from e.to (int_bytes e.weight),
        rest-two e.from e.to (int_bytes e.weight),
        bytes_int-int_bytes e.weight,
      )
      refl

abbrev pub sample : Outside
sample = record {
  marshal_hello = λ h. some (write_hello h);
  marshal_add_edge = λ e. some (write_add_edge e);
  marshal_del_edge = λ e. some (write_two e.from e.to []);
  marshal_add_subnet = λ s. some (write_two s.owner s.subnet []);
  marshal_del_subnet = λ s. some (write_two s.owner s.subnet []);
  unmarshal_hello = λ b. some (read_hello b);
  unmarshal_add_edge = λ b. some (read_add_edge b);
  unmarshal_del_edge = λ b. some (record { from = field b; to = field (after b) });
  unmarshal_add_subnet = λ b. some (record { owner = field b; subnet = field (after b) });
  unmarshal_del_subnet = λ b. some (record { owner = field b; subnet = field (after b) });
  ed_sign = λ private m. private ++ m;
  ed_verify = λ public m signature. text_eq signature (public ++ m);
  base64_decode = λ b. none;
  parse_prefix_addr = λ s. none;
  parse_addr = λ s. some s;
  broadcast_ok = λ env. true;
}

read-write_pair :
    (a b : Text) → (field (write_two a b []) ≡ a) × (field (after (write_two a b [])) ≡ b)
read-write_pair a b = (field-with a (with_field b []), second-two a b [])

some-injective : {a b : Bytes} → some a ≡ some b → b ≡ a
some-injective e = cc

pub sample-IsJson : IsJson sample
sample-IsJson = record {
  hello = λ h {b} e. rw (some-injective e) (ap some (read-write_hello h));
  add_edge = λ x {b} e. rw (some-injective e) (ap some (read-write_add_edge x));
  del_edge = λ x {b} e.
      rw (some-injective e, (read-write_pair x.from x.to).0, (read-write_pair x.from x.to).1) refl;
  add_subnet = λ x {b} e.
      rw
        (
          some-injective e,
          (read-write_pair x.owner x.subnet).0,
          (read-write_pair x.owner x.subnet).1,
        )
        refl;
  del_subnet = λ x {b} e.
      rw
        (
          some-injective e,
          (read-write_pair x.owner x.subnet).0,
          (read-write_pair x.owner x.subnet).1,
        )
        refl;
}

pub sample-KeyPair : (key : Bytes) → KeyPair sample key key
sample-KeyPair key m = text_eq_refl (key ++ m)
