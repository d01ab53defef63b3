-- ===== src/Gossip/Plane/Authentic.antt =====
-- Which envelopes are believed.
use gsnet.Common.{
  ◌≡◌, refl, [], ◌∷◌, ◌⊎◌, ◌∙◌, ◌||◌, true, Option, none, some, Text, arith, inl, inr, Bool-cases,
  is_some, length,
}
use gsnet.Dict.{get}
use gsnet.Gossip.Message.{Bytes, Envelope, signing_bytes}
use gsnet.Gossip.Outside.{Outside}
use gsnet.Gossip.Plane.{Plane, receive, verify, verify_with, check_key, choose_key, public_key_size}
use gsnet.Gossip.Plane.Claims.{accepts, receive_dropped}

choose_key-some :
    (a b : Option Bytes) {key : Bytes} → choose_key a b ≡ some key → (a ≡ some key) ⊎ (b ≡ some key)
unfolding choose_key
choose_key-some none b h = inr h
choose_key-some (some []) b h = inr h
choose_key-some (some (c ∷ cs)) b h = inl h

module _ (w : Outside) where
  -- The key comes from the installed lookup, or was learned from a Hello.
  abbrev pub Holds : Plane → Text → Bytes → Type 0
  Holds p origin key =
      ((f : Text → Option Bytes) × (p.pub_key_for ≡ some f) × (f origin ≡ some key))
      ⊎ (get p.pub_keys origin ≡ some key)

  abbrev pub Signed : Plane → Envelope → Type 0
  Signed p env =
      (key : Bytes) × Holds p env.origin key
      × (length key ≡ public_key_size)
      × (w.ed_verify key (signing_bytes env) env.signature ≡ true)

  check_key-true :
      (o : Option Bytes) (env : Envelope)
      → check_key w o env ≡ true
      → (key : Bytes) × (o ≡ some key)
        × (length key ≡ public_key_size)
        × (w.ed_verify key (signing_bytes env) env.signature ≡ true)
  unfolding check_key
  check_key-true none env h = cc
  check_key-true (some []) env h = cc
  check_key-true (some (b ∷ bs)) env h = (b ∷ bs, refl, ground arith, ground arith)

  verify_with-Signed :
      (f : Option (Text → Option Bytes)) (learned : Option Bytes) (p : Plane) (env : Envelope)
      → p.pub_key_for ≡ f
      → get p.pub_keys env.origin ≡ learned
      → (is_some f || is_some learned) ≡ true
      → verify_with w f learned env ≡ true
      → Signed p env
  unfolding verify_with
  verify_with-Signed none none p env e l k h = cc
  verify_with-Signed none (some key) p env e l k h =
      let (key', same, size, good) = check_key-true (some key) env h in
      (key', inr (l ∙ same), size, good)
  verify_with-Signed (some f) learned p env e l k h =
      let (key, chosen, size, good) = check_key-true (choose_key (f env.origin) learned) env h in
      elim (choose_key-some (f env.origin) learned chosen) [
        | inl a ↦ (key, inl (f, e, a), size, good)
        | inr b ↦ (key, inr (l ∙ b), size, good)
      ]

  -- Where a lookup is installed, or a key of the origin has been learned, `Receive` changes the plane
  -- or passes the envelope on only if its signature is valid for a key of its origin: one of 32
  -- bytes that the lookup returned, or the learned one.
  pub receive-Signed :
      (p : Plane) (env : Envelope)
      → (is_some p.pub_key_for || is_some (get p.pub_keys env.origin)) ≡ true
      → ((receive w p env).0 ≡ p) × ((receive w p env).1 ≡ []) ⊎ Signed p env
  receive-Signed p env k = elim (Bool-cases (accepts w p env)) [
    | inl took ↦ inr (
        unfold verify in
        verify_with-Signed p.pub_key_for (get p.pub_keys env.origin) p env refl refl k
          (ground arith))
    | inr left ↦ inl (receive_dropped w p env left)
  ]
