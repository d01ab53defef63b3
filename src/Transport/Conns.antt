-- ===== src/Transport/Conns.antt =====
-- internal/transport/transport.go: the pool of gossip connections. An operation holds the mutex for as
-- long as it reads or changes the pool; `dial` is the run of `Dial` in which no other call changes the
-- pool between its check and its entry.
use gsnet.Common.{
  ℕ, suc, ◌≤◌, ◌≡◌, ◌≢◌, refl, List, [], ◌∷◌, ◌||◌, Bool, true, false, Option, none, some, Text,
  text_eq, text_eq_iff, ◌==◌, if◌then◌else◌, arith, Bool-cases, inl, inr,
}

-- A connection, told from others by a number as by its address in the program. A connection that came
-- in has no outbound address.
pub record Conn : Type 0 where
  pub id : ℕ
  pub outbound_addr : Text

abbrev pub Pool : Type 0
Pool = List Conn

pub tracked : Pool → ℕ → Bool
tracked [] i = false
tracked (k ∷ ks) i = k.id == i || tracked ks i

-- `track`
unfoldable pub track : Pool → Conn → Pool
unfolding tracked
track pool k = if tracked pool k.id then pool else k ∷ pool

-- `untrack`
unfoldable pub untrack : Pool → ℕ → Pool
untrack [] i = []
untrack (k ∷ ks) i = let rest = untrack ks i in if k.id == i then rest else k ∷ rest

-- `hasOutbound`
unfoldable pub has_outbound : Pool → Text → Bool
has_outbound [] addr = false
has_outbound (k ∷ ks) addr = text_eq k.outbound_addr addr || has_outbound ks addr

enter : Pool → Text → Option ℕ → Pool × Bool
unfolding track
enter pool addr none = (pool, false)
enter pool addr (some i) = (track pool (record { id = i; outbound_addr = addr }), true)

-- `Dial`, with the connection that the network gives, and whether it returned no error.
unfoldable pub dial : Pool → Text → Option ℕ → Pool × Bool
unfolding has_outbound enter
dial pool addr connected =
    if has_outbound pool addr then (pool, true) else enter pool addr connected

-- What `Broadcast` does to a connection.
pub data Sent : Type 0 where
  written closed : ℕ → Sent

-- `Broadcast`, where `works` says on which connections the write and the flush succeed.
unfoldable pub broadcast : (ℕ → Bool) → Pool → List Sent
broadcast works [] = []
broadcast works (k ∷ ks) = (if works k.id then written k.id else closed k.id) ∷ broadcast works ks

-- The ways in which the pool changes: a peer that greets with GOSSIP, a handler that ends, and `Dial`.
pub data Step : Pool → Pool → Type 0 where
  greeted : (pool : Pool) (i : ℕ) → Step pool (track pool (record { id = i; outbound_addr = [] }))
  ended : (pool : Pool) (i : ℕ) → Step pool (untrack pool i)
  dialled :
      (pool : Pool) (addr : Text) (connected : Option ℕ) → Step pool (dial pool addr connected).0

pub data Reachable : Pool → Type 0 where
  empty : Reachable []
  step : {pool next : Pool} → Reachable pool → Step pool next → Reachable next

-- The connections that go to an address.
unfoldable pub outbound_count : Pool → Text → ℕ
outbound_count [] addr = 0
outbound_count (k ∷ ks) addr =
    let rest = outbound_count ks addr in if text_eq k.outbound_addr addr then suc rest else rest

has_outbound-count :
    (pool : Pool) (addr : Text) → has_outbound pool addr ≡ false → outbound_count pool addr ≡ 0
unfolding has_outbound outbound_count
has_outbound-count [] addr h = refl
has_outbound-count (k ∷ ks) addr h = ground (arith, has_outbound-count ks addr)

untrack-count :
    (pool : Pool) (i : ℕ) (addr : Text)
    → outbound_count (untrack pool i) addr ≤ outbound_count pool addr
unfolding untrack outbound_count
untrack-count [] i addr = omega arith
untrack-count (k ∷ ks) i addr = elim (Bool-cases (k.id == i)) [
  | inl e ↦ rw e (ground (arith, untrack-count ks i addr))
  | inr e ↦ rw e (ground (arith, untrack-count ks i addr))
]

track-count :
    (pool : Pool) (i : ℕ) (to addr : Text)
    → outbound_count (track pool (record { id = i; outbound_addr = to })) addr
      ≤ (if text_eq to addr then suc (outbound_count pool addr) else outbound_count pool addr)
unfolding track outbound_count
track-count pool i to addr = ground arith

dial-count :
    (pool : Pool) (to addr : Text) (connected : Option ℕ)
    → outbound_count pool addr ≤ 1
    → outbound_count (dial pool to connected).0 addr ≤ 1
unfolding dial enter
dial-count pool to addr none h = ground arith
dial-count pool to addr (some i) h =
    ground (arith, track-count pool i to addr, has_outbound-count pool to, text_eq_iff to addr)

step-count :
    (pool next : Pool) (addr : Text)
    → addr ≢ []
    → outbound_count pool addr ≤ 1
    → Step pool next
    → outbound_count next addr ≤ 1
step-count pool _ addr ne h (greeted _ i) =
    ground (arith, track-count pool i [] addr, text_eq_iff [] addr)
step-count pool _ addr ne h (ended _ i) = omega (arith, untrack-count pool i addr)
step-count pool _ addr ne h (dialled _ to connected) = dial-count pool to addr connected h

-- As long as no two calls of `Dial` overlap, the pool never holds two connections that were dialled to
-- one address, whatever comes in or ends in between.
pub outbound_count-Reachable :
    (pool : Pool) (addr : Text) → addr ≢ [] → Reachable pool → outbound_count pool addr ≤ 1
outbound_count-Reachable _ addr ne empty = unfold outbound_count in omega arith
outbound_count-Reachable _ addr ne (step {pool} {next} r s) =
    step-count pool next addr ne (outbound_count-Reachable pool addr ne r) s
