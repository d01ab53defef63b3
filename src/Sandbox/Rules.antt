-- ===== src/Sandbox/Rules.antt =====
-- The rules that a successful run of `applyLandlock` adds, and the calls around them.
use gsnet.Common.{
  ℕ, ◌≡◌, refl, sym, ap, ◌∙◌, List, [], ◌∷◌, ◌++◌, ◌&&◌, ◌||◌, not, Bool, true, false, none, some,
  Text, text_eq, text_eq_iff, leb, ◌==◌, arith, Bool-cases, inl, inr,
}
use mathlib.Core.List.{append_assoc, append-nil}
use gsnet.Sandbox.{
  Options, Right, execute, write_file, read_file, read_dir, remove_dir, remove_file, make_char,
  make_dir, make_reg, make_sock, make_fifo, make_block, make_sym, refer, truncate, Call,
  create_ruleset, add_rule, no_new_privs, restrict_self, System, Run, and_then, access, read_access,
  write_access, call, rule, conf_rule, write_rules, apply_landlock,
}

-- The bit of a right.
abbrev bit : Right → ℕ
bit execute = 0
bit write_file = 1
bit read_file = 2
bit read_dir = 3
bit remove_dir = 4
bit remove_file = 5
bit make_char = 6
bit make_dir = 7
bit make_reg = 8
bit make_sock = 9
bit make_fifo = 10
bit make_block = 11
bit make_sym = 12
bit refer = 13
bit truncate = 14

abbrev pub has_right : Right → List Right → Bool
has_right r [] = false
has_right r (q ∷ qs) = bit r == bit q || has_right r qs

-- Every right of the first mask is one of the second.
abbrev pub within : List Right → List Right → Bool
within [] m = true
within (r ∷ rs) m = has_right r m && within rs m

-- A rule of the ruleset: reading the configuration, or writing below a path that is listed; the kernel
-- takes it, since the ruleset handles all of its rights.
abbrev pub listed : List Text → Text → Bool
listed [] p = false
listed (q ∷ qs) p = text_eq q p || listed qs p

pub data IsRule (sys : System) (o : Options) : Call → Type 0 where
  reads :
      (m : List Right)
      → m ≡ read_access
      → within m (access sys.abi) ≡ true
      → IsRule sys o (add_rule o.conf_dir m)
  writes :
      (p : Text) (m : List Right)
      → listed o.write_paths p ≡ true
      → m ≡ write_access sys.abi
      → within m (access sys.abi) ≡ true
      → IsRule sys o (add_rule p m)

read_access-within : (abi : ℕ) → within read_access (access abi) ≡ true
unfolding access
read_access-within abi = refl

-- The kernel refuses a rule with a right that the ruleset does not handle. There is none, whatever the ABI.
write_access-within : (abi : ℕ) → within (write_access abi) (access abi) ≡ true
unfolding access write_access
write_access-within abi = elim (Bool-cases (leb 3 abi)) [
  | inl new ↦ let refers : leb 2 abi ≡ true = ground arith in rw (new, refers) refl
  | inr old ↦ rw old refl
]

listed-append : (b ps : List Text) (p : Text) → listed (b ++ (p ∷ ps)) p ≡ true
listed-append [] ps p = ground (arith, text_eq_iff p p)
listed-append (q ∷ b) ps p = ground (arith, listed-append b ps p)

abbrev pub AllRules : System → Options → List Call → Type 0
AllRules sys o [] = Unit
AllRules sys o (c ∷ cs) = IsRule sys o c × AllRules sys o cs

pub and_then-eq-none :
    (r : Run) (next : List Call → Run) {ds : List Call}
    → and_then r next ≡ (ds, none)
    → (cs : List Call) × (r ≡ (cs, none)) × (next cs ≡ (ds, none))
unfolding and_then
and_then-eq-none (cs, none) next h = (cs, refl, h)
and_then-eq-none (cs, some e) next h = cc h

AllRules-append :
    (sys : System) (o : Options) (xs ys : List Call)
    → AllRules sys o xs
    → AllRules sys o ys
    → AllRules sys o (xs ++ ys)
AllRules-append sys o [] ys h k = k
AllRules-append sys o (x ∷ xs) ys h k = (h.0, AllRules-append sys o xs ys h.1 k)

chained :
    (a n s : Call) (r2 r3 : List Call) {c1 c2 c3 c4 ds : List Call}
    → c1 ≡ a ∷ []
    → c2 ≡ c1 ++ r2
    → c3 ≡ c2 ++ r3
    → c4 ≡ c3 ++ n ∷ []
    → ds ≡ c4 ++ s ∷ []
    → ds ≡ a ∷ ((r2 ++ r3) ++ (n ∷ s ∷ []))
chained a n s r2 r3 e1 e2 e3 e4 e5 = rw (e5, e4, e3, e2, e1) (simp append_assoc)

module _ (sys : System) (o : Options) where
  pub call_lem :
      (cs : List Call) (c : Call) {ds : List Call} → call sys cs c ≡ (ds, none) → ds ≡ cs ++ c ∷ []
  unfolding call
  call_lem cs c h = ap (λ (r : Run). r.0) (sym h)

  rule_lem :
      (cs : List Call) (p : Text) (m : List Right) {ds : List Call}
      → rule sys cs p m ≡ (ds, none)
      → ds ≡ cs ++ add_rule p m ∷ []
  unfolding rule
  rule_lem cs p m h = elim (Bool-cases (sys.opens p)) [
    | inl e ↦ call_lem cs (add_rule p m) (rw (e, rule) at h)
    | inr e ↦ cc (rw (e, rule) at h)
  ]

  conf_rule_lem :
      (cs : List Call) {ds : List Call}
      → conf_rule sys cs o.conf_dir ≡ (ds, none)
      → (rs : List Call) × (ds ≡ cs ++ rs) × AllRules sys o rs
  unfolding conf_rule
  conf_rule_lem cs {ds} h = elim (Bool-cases (not (text_eq o.conf_dir []))) [
    | inl e ↦ (
      add_rule o.conf_dir read_access ∷ [],
      rule_lem cs o.conf_dir read_access (rw (e, conf_rule) at h),
      (reads read_access refl (read_access-within sys.abi), tt),
    )
    | inr e ↦
        let same : cs ≡ ds = cc (rw (e, conf_rule) at h) in ([], sym same ∙ sym (append-nil cs), tt)
  ]

  write_rules_lem :
      (b ps : List Text) (cs : List Call) {ds : List Call}
      → o.write_paths ≡ b ++ ps
      → write_rules sys cs ps ≡ (ds, none)
      → (rs : List Call) × (ds ≡ cs ++ rs) × AllRules sys o rs
  unfolding write_rules
  write_rules_lem b [] cs {ds} w h =
      let same : cs ≡ ds = cc h in ([], sym same ∙ sym (append-nil cs), tt)
  write_rules_lem b (p ∷ ps) cs w h = elim (Bool-cases (sys.is_missing p)) [
    | inl e ↦
        write_rules_lem (b ++ p ∷ []) ps cs (w ∙ sym (append_assoc b (p ∷ []) ps))
          (rw (e, write_rules) at h)
    | inr e ↦
        let (es, first, rest) =
          and_then-eq-none (rule sys cs p (write_access sys.abi)) _ (rw (e, write_rules) at h) in
        let (rs, whole, good) =
          write_rules_lem (b ++ p ∷ []) ps es (w ∙ sym (append_assoc b (p ∷ []) ps)) rest in
        let one = rule_lem cs p (write_access sys.abi) first in
        (
          add_rule p (write_access sys.abi) ∷ rs,
          whole
              ∙ ap (λ (x : List Call). x ++ rs) one
              ∙ append_assoc cs (add_rule p (write_access sys.abi) ∷ []) rs,
          (
            writes p (write_access sys.abi) (ap (λ l. listed l p) w ∙ listed-append b ps p) refl
                (write_access-within sys.abi),
            good,
          ),
        )
  ]

  -- The Landlock part of a run.
  abbrev pub Confined : List Call → Type 0
  Confined cs =
      (rs : List Call) × (cs
        ≡ create_ruleset (access sys.abi) ∷ (rs ++ (no_new_privs ∷ restrict_self ∷ [])))
      × AllRules sys o rs

  pub apply_landlock_lem :
      {ds : List Call} → apply_landlock sys [] o.conf_dir o.write_paths ≡ (ds, none) → Confined ds
  unfolding apply_landlock
  apply_landlock_lem {ds} h = elim (Bool-cases (sys.abi == 0)) [
    | inl e ↦ cc (rw (e, apply_landlock) at h)
    | inr e ↦
        let (c1, made, h1) = and_then-eq-none _ _ (rw (e, apply_landlock) at h) in
        let (c2, conf, h2) = and_then-eq-none _ _ h1 in
        let (c3, wrote, h3) = and_then-eq-none _ _ h2 in
        let (c4, privs, h4) = and_then-eq-none _ _ h3 in
        let e1 = call_lem [] (create_ruleset (access sys.abi)) made in
        let (r2, e2, g2) = conf_rule_lem c1 conf in
        let (r3, e3, g3) = write_rules_lem [] o.write_paths c2 refl wrote in
        let e4 = call_lem c3 no_new_privs privs in
        let e5 = call_lem c4 restrict_self h4 in
        (r2 ++ r3, chained _ _ _ r2 r3 e1 e2 e3 e4 e5, AllRules-append sys o r2 r3 g2 g3)
  ]
