-- ===== src/Gossip/Plane/Claims.antt =====
-- Loop suppression: the table `seen` only grows, and each version of a fact is passed on once.
use gsnet.Common.{
  ℕ, ◌+◌, ◌≤◌, ◌≡◌, refl, List, [], ◌∷◌, ◌++◌, ◌||◌, ◌&&◌, not, Bool, true, false, Option, none,
  some, Text, text_eq, text_eq_iff, arith, if◌then◌else◌, inl, inr, Bool-cases,
}
use gsnet.Common.Int.{ℤ, pos, negsuc, int_eq}
use gsnet.Dict.{get}
use gsnet.Dict.Laws.{get-put}
use gsnet.Gossip.Message.{Envelope}
use gsnet.Gossip.Outside.{Outside}
use gsnet.Gossip.Plane.{
  Plane, Event, notify, broadcast, stale, leb_ℤ, claim, apply, verify, receive,
}
use gsnet.Gossip.Plane.Shape.{apply-SameBook}

leb_ℤ_trans : (a b c : ℤ) → leb_ℤ a b ≡ true → leb_ℤ b c ≡ true → leb_ℤ a c ≡ true
leb_ℤ_trans (pos a) b c h k = ground arith
leb_ℤ_trans (negsuc a) b c h k = ground arith

pub leb_ℤ_refl : (a : ℤ) → leb_ℤ a a ≡ true
leb_ℤ_refl (pos a) = ground arith
leb_ℤ_refl (negsuc a) = ground arith

leb_ℤ_total : (a b : ℤ) → leb_ℤ a b ≡ false → leb_ℤ b a ≡ true
leb_ℤ_total (pos a) (pos b) h = ground arith
leb_ℤ_total (pos a) (negsuc b) h = ground arith
leb_ℤ_total (negsuc a) (pos b) h = ground arith
leb_ℤ_total (negsuc a) (negsuc b) h = ground arith

-- An envelope with this ID and time stamp would be dropped as already seen.
abbrev pub known : Plane → Text → ℤ → Bool
known p id ts = stale (get p.seen id) ts

stale-some : (prev ts t : ℤ) → leb_ℤ ts prev ≡ false → leb_ℤ t prev ≡ true → leb_ℤ t ts ≡ true
stale-some prev ts t h k = leb_ℤ_trans t prev ts k (leb_ℤ_total ts prev h)

-- A new entry makes stale what the old one did, and all up to its own time.
stale-newer :
    (o : Option ℤ) (ts t : ℤ) → stale o ts ≡ false → leb_ℤ t ts ≡ (stale o t || leb_ℤ t ts)
stale-newer none ts t h = refl
stale-newer (some prev) ts t h = ground (arith, stale-some prev ts t)

pub known_newer :
    (p : Plane) (id : Text) (ts t : ℤ)
    → known p id ts ≡ false
    → leb_ℤ t ts ≡ false
    → known p id t ≡ false
known_newer p id ts t h k = ground (arith, stale-newer (get p.seen id) ts t h)

pub known-claim :
    (p : Plane) (id : Text) (ts : ℤ) (j : Text) (t : ℤ)
    → known (claim p id ts).0 j t
      ≡ (known p j t || not (known p id ts) && text_eq id j && leb_ℤ t ts)
unfolding claim
known-claim p id ts j t = elim (Bool-cases (known p id ts)) [
  | inl old ↦ rw (old, claim) (ground arith)
  | inr new ↦ elim (Bool-cases (text_eq id j)) [
    | inl e ↦ ground (
      arith,
      new,
      get-put p.seen id ts j,
      (text_eq_iff id j).0 e,
      stale-newer (get p.seen id) ts t new,
    )
    | inr ne ↦ ground (arith, new, get-put p.seen id ts j)
  ]
]

pub g-claim : (p : Plane) (id : Text) (ts : ℤ) → (claim p id ts).0.g ≡ p.g
unfolding claim
g-claim p id ts = ground arith

-- The number of broadcasts of one version of a fact.
unfoldable pub copies : Text → ℤ → List Event → ℕ
copies id ts [] = 0
copies id ts (notify e ∷ es) = copies id ts es
copies id ts (broadcast e ∷ es) =
    (if text_eq e.id id && int_eq e.ts ts then 1 else 0) + copies id ts es

pub copies-append :
    (id : Text) (ts : ℤ) (xs ys : List Event)
    → copies id ts (xs ++ ys) ≡ copies id ts xs + copies id ts ys
unfolding copies
copies-append id ts [] ys = omega arith
copies-append id ts (notify e ∷ xs) ys = copies-append id ts xs ys
copies-append id ts (broadcast e ∷ xs) ys = omega (arith, copies-append id ts xs ys)

pub int_eq_leb : (a b : ℤ) → int_eq a b ≡ true → leb_ℤ b a ≡ true
int_eq_leb (pos a) (pos b) h = ground arith
int_eq_leb (pos a) (negsuc b) h = cc
int_eq_leb (negsuc a) (pos b) h = cc
int_eq_leb (negsuc a) (negsuc b) h = ground arith

pub int_eq_eq : (a b : ℤ) → int_eq a b ≡ true → a ≡ b
int_eq_eq (pos a) (pos b) h = ground arith
int_eq_eq (pos a) (negsuc b) h = cc
int_eq_eq (negsuc a) (pos b) h = cc
int_eq_eq (negsuc a) (negsuc b) h = ground arith

module _ (w : Outside) where
  -- The envelope verifies and is newer than what was seen of its ID.
  abbrev pub accepts : Plane → Envelope → Bool
  accepts p env = verify w p env && not (known p env.id env.ts)

  pub copies-apply :
      (p : Plane) (env : Envelope) (id : Text) (ts : ℤ) → copies id ts (apply w p env).1 ≡ 0
  unfolding apply copies
  copies-apply p env id ts = ground arith

  -- A dropped envelope changes nothing and is passed to nobody.
  pub receive_dropped :
      (p : Plane) (env : Envelope)
      → accepts p env ≡ false
      → ((receive w p env).0 ≡ p) × ((receive w p env).1 ≡ [])
  unfolding receive claim
  receive_dropped p env h = ground arith

  pub receive_accepted :
      (p : Plane) (env : Envelope)
      → accepts p env ≡ true
      → ((receive w p env).0 ≡ (apply w (claim p env.id env.ts).0 env).0)
        × ((receive w p env).1 ≡ (apply w (claim p env.id env.ts).0 env).1 ++ broadcast env ∷ [])
  unfolding receive claim
  receive_accepted p env h = ground arith

  pub known-receive :
      (p : Plane) (env : Envelope) (j : Text) (t : ℤ)
      → known (receive w p env).0 j t
        ≡ (known p j t || accepts p env && text_eq env.id j && leb_ℤ t env.ts)
  known-receive p env j t = elim (Bool-cases (accepts p env)) [
    | inl took ↦
        let q = (claim p env.id env.ts).0 in
        let same = apply-SameBook w q env in
        rw ((receive_accepted p env took).0, same.seen)
          (ground (arith, known-claim p env.id env.ts j t))
    | inr left ↦ rw ((receive_dropped p env left).0, left) (ground arith)
  ]

  copies-receive :
      (p : Plane) (env : Envelope) (id : Text) (ts : ℤ)
      → copies id ts (receive w p env).1
        ≡ (if accepts p env && text_eq env.id id && int_eq env.ts ts then 1 else 0)
  copies-receive p env id ts = elim (Bool-cases (accepts p env)) [
    | inl took ↦
        let q = (claim p env.id env.ts).0 in
        rw ((receive_accepted p env took).1, copies-append, copies-apply q env id ts)
          (unfold copies in ground (arith, took))
    | inr left ↦ rw ((receive_dropped p env left).1) (unfold copies in ground (arith, left))
  ]

  -- A sequence of calls of `Receive`.
  unfoldable pub receive_all : Plane → List Envelope → Plane × List Event
  receive_all p [] = (p, [])
  receive_all p (env ∷ envs) =
      let (q, first, _) = receive w p env in
      let (r, later) = receive_all q envs in (r, first ++ later)

  pub known-receive_all :
      (envs : List Envelope) (p : Plane) (id : Text) (ts : ℤ)
      → known p id ts ≡ true
      → known (receive_all p envs).0 id ts ≡ true
  unfolding receive_all
  known-receive_all [] p id ts h = h
  known-receive_all (env ∷ envs) p id ts h =
      known-receive_all envs (receive w p env).0 id ts (ground (arith, known-receive p env id ts))

  -- Whatever envelopes arrive, in whatever order, each version of a fact is broadcast at most once,
  -- and not at all if it was known before.
  pub broadcast_once :
      (envs : List Envelope) (p : Plane) (id : Text) (ts : ℤ)
      → copies id ts (receive_all p envs).1 ≤ (if known p id ts then 0 else 1)
  unfolding receive_all
  broadcast_once [] p id ts = unfold copies in ground arith
  broadcast_once (env ∷ envs) p id ts =
      let q = (receive w p env).0 in
      let rest = broadcast_once envs q id ts in
      ground (
        arith,
        rest,
        copies-append id ts (receive w p env).1 (receive_all q envs).1,
        copies-receive p env id ts,
        known-receive p env id ts,
        int_eq_leb env.ts ts,
        int_eq_eq env.ts ts,
        text_eq_iff env.id id,
      )

  -- Once an envelope has been accepted, every later envelope with its ID and the same or an older
  -- time stamp is dropped with no effect, whatever was received in between.
  pub receive_stays_dropped :
      (p : Plane) (env : Envelope) (envs : List Envelope) (old : Envelope)
      → accepts p env ≡ true
      → text_eq env.id old.id ≡ true
      → leb_ℤ old.ts env.ts ≡ true
      → let q = (receive_all (receive w p env).0 envs).0 in
        ((receive w q old).0 ≡ q) × ((receive w q old).1 ≡ [])
  receive_stays_dropped p env envs old a i t =
      let q = (receive_all (receive w p env).0 envs).0 in
      receive_dropped q old (
        ground (
          arith,
          known-receive p env old.id old.ts,
          known-receive_all envs (receive w p env).0 old.id old.ts,
        ))
