-- ===== src/Commands/Settings/Kept.antt =====
-- What `set` leaves in the configuration, and what `get` then prints.
use gsnet.Common.{
  Bool, Bool-cases, false, ◌≡◌, refl, ap, ◌∙◌, sym, List, [], ◌∷◌, ◌++◌, true, some, Text,
  Option-cases, inl, inr, if◌then◌else◌, arith,
}
use mathlib.Core.List.{append-nil}
use gsnet.Config.{Entry, render}
use gsnet.Config.Rendered.{IsKey, IsValue, AllEntries, parse-render}
use gsnet.Config.Forms.{AllForms, AllShort, AllForms-AllEntries}
use gsnet.Config.Lookup.{head?}
use gsnet.Config.Directory.{
  Loading, failed, loaded, not_there, cannot_read, cannot_list, bad, parse_file, load_directory,
  parse_file-contents, parse_file-AllForms, load_directory-Starts,
}
use gsnet.Daemon.Paths.{Paths, conf_file}
use gsnet.Commands.{Store, IsLawful, Ran, stopped, done, and_then, loading}
use gsnet.Commands.Settings.{
  or_nothing, values, without, changed, write_conf, mutate_conf, cmd_get, cmd_set,
}

-- What is documented of `strings.EqualFold`: two texts are equal under it if their Unicode case-foldings
-- are.
pub record IsFold (same : Text → Text → Bool) : Type 0 where
  pub reflexive : (a : Text) → same a a ≡ true
  pub left : (a b c : Text) → same a b ≡ true → same a c ≡ same b c

module _ (same : Text → Text → Bool) (fold : IsFold same) where
  values-without :
      (es : List Entry) (k j : Text)
      → values same (without same es k) j ≡ (if same k j then [] else values same es j)
  unfolding values without
  values-without [] k j = ground arith
  values-without (e ∷ es) k j = elim (Bool-cases (same e.key k)) [
    | inl gone ↦
        let alike = fold.left e.key k j gone in
        rw (gone, without) (ground (arith, values-without es k j))
    | inr kept ↦ elim (Bool-cases (same k j)) [
      | inl named ↦
          let other : same e.key j ≡ false = differs e.key k j kept named in
          rw (kept, other, named, without, values) (ground (arith, values-without es k j))
      | inr apart ↦ rw (kept, without) (ground (arith, values-without es k j))
    ]
  ]
    where
      differs : (a k j : Text) → same a k ≡ false → same k j ≡ true → same a j ≡ false
      differs a k j apart alike = elim (Bool-cases (same a j)) [
        | inr off ↦ off
        | inl on ↦
            let back : same j k ≡ true = sym (fold.left k j k alike) ∙ fold.reflexive k in
            cc (fold.left a j k on, back, apart)
      ]

  values-append :
      (es fs : List Entry) (j : Text)
      → values same (es ++ fs) j ≡ values same es j ++ values same fs j
  unfolding values
  values-append [] fs j = refl
  values-append (e ∷ es) fs j = ground (arith, values-append es fs j)

  -- A key that has been set has that value only, and every other key has the values it had.
  values-changed :
      (es : List Entry) (k v j : Text)
      → values same (changed same es k v true) j ≡ (if same k j then v ∷ [] else values same es j)
  unfolding changed values
  values-changed es k v j =
      values-append (without same es k) (record { key = k; value = v } ∷ []) j
      ∙ ground (arith, values-without es k j, append-nil (values same es j))

  set_value : (es : List Entry) (k v : Text) → values same (changed same es k v true) k ≡ v ∷ []
  set_value es k v = values-changed es k v k ∙ rw (fold.reflexive k) refl

without-AllForms :
    (same : Text → Text → Bool) (es : List Entry) (k : Text)
    → AllForms es
    → AllForms (without same es k)
unfolding without
without-AllForms same [] k h = tt
without-AllForms same (e ∷ es) k h = ground (arith, without-AllForms same es k h.1)

snoc-AllForms :
    (es : List Entry) (e : Entry)
    → AllForms es
    → IsKey e.key
    → IsValue e.value
    → AllForms (es ++ e ∷ [])
snoc-AllForms [] e h k v = ((k, v), tt)
snoc-AllForms (f ∷ es) e h k v = (h.0, snoc-AllForms es e h.1 k v)

or_nothing-AllForms :
    (l : Loading (List Entry)) (es : List Entry)
    → ((fs : List Entry) → l ≡ loaded fs → AllForms fs)
    → or_nothing l ≡ loaded es
    → AllForms es
unfolding or_nothing
or_nothing-AllForms (failed not_there) [] h e = tt
or_nothing-AllForms (failed not_there) (x ∷ es) h e = cc e
or_nothing-AllForms (failed cannot_read) es h e = cc e
or_nothing-AllForms (failed cannot_list) es h e = cc e
or_nothing-AllForms (failed (bad x)) es h e = cc e
or_nothing-AllForms (loaded fs) es h e = h es e

-- The first of the lines that are printed, if the command got that far.
abbrev pub Prints : {S : Type 0} → Text → Ran S (List Text) → Type 0
Prints v (stopped s e) = Unit
Prints v (done s out) = head? out ≡ some v

module _ {S : Type 0} (same : Text → Text → Bool) (fold : IsFold same) (st : Store S)
    (law : IsLawful st) (p : Paths) where
  write_conf-parse_file :
      (s t : S) (es : List Entry)
      → AllEntries es
      → write_conf same st p s es ≡ done t tt
      → parse_file (st.disk t) (conf_file p) ≡ loaded es
  unfolding write_conf
  write_conf-parse_file s t es h w =
      elim (Option-cases (st.write_file s (conf_file p) (render es))) [
        | inl e ↦ cc (rw e at w)
        | inr (u, e) ↦
            let same : u ≡ t = cc (rw e at w) in
            parse_file-contents (st.disk t) (conf_file p) (render es) es
              (law.read-write s t (conf_file p) (render es) (e ∙ ap some same)) (parse-render es h)
      ]

  head-append : (a b : List Text) (v : Text) → a ≡ v ∷ [] → head? (a ++ b) ≡ some v
  head-append a b v h = ap (λ (x : List Text). head? (x ++ b)) h

  loading-Prints :
      (s : S) (k v : Text) (l : Loading (List Entry))
      → ((all : List Entry) → l ≡ loaded all → head? (values same all k) ≡ some v)
      → Prints v (and_then (loading s l) (λ t es. done t (values same es k)))
  loading-Prints s k v (failed e) h = tt
  loading-Prints s k v (loaded es) h = h es refl

  cmd_get-Prints :
      (s : S) (k v : Text) (es : List Entry)
      → parse_file (st.disk s) (conf_file p) ≡ loaded es
      → values same es k ≡ v ∷ []
      → Prints v (cmd_get same st p s (k ∷ []))
  unfolding cmd_get
  cmd_get-Prints s k v es h g =
      loading-Prints s k v (load_directory (st.disk s) (conf_file p)) (λ all l.
        let (more, whole) = load_directory-Starts (st.disk s) (conf_file p) es all h l in
        ap (λ x. head? (values same x k)) whole
        ∙ ap head? (values-append same fold es more k)
        ∙ head-append (values same es k) (values same more k) v g)

  -- After `set` without an error the file holds what it held but for that key, which has the new value
  -- and no other; keys that `EqualFold` takes as equal are one key, so every other key keeps its values. Then the first
  -- line that `get` prints for the key is the value. The key and the value are such as the format can
  -- carry, and no line that is written reaches the limit of the scanner.
  pub set_then_get :
      (s t : S) (k v j : Text) (es : List Entry)
      → or_nothing (parse_file (st.disk s) (conf_file p)) ≡ loaded es
      → IsKey k
      → IsValue v
      → AllShort (changed same es k v true)
      → cmd_set same st p s (k ∷ v ∷ []) ≡ done t tt
      → let new = changed same es k v true in
        (parse_file (st.disk t) (conf_file p) ≡ loaded new)
        × (values same new j ≡ (if same k j then v ∷ [] else values same es j))
        × Prints v (cmd_get same st p t (k ∷ []))
  unfolding cmd_set mutate_conf
  set_then_get s t k v j es held key value short ran =
      let forms : AllForms (changed same es k v true) =
        unfold changed in
        snoc-AllForms (without same es k) _
          (without-AllForms same es k (
            or_nothing-AllForms _ es (λ fs h. parse_file-AllForms (st.disk s) (conf_file p) fs h)
              held))
          key value in
      let written =
        write_conf-parse_file s t (changed same es k v true)
          (AllForms-AllEntries (changed same es k v true) forms short) (rw held at ran) in
      (
        written,
        values-changed same fold es k v j,
        cmd_get-Prints t k v (changed same es k v true) written (set_value same fold es k v),
      )
