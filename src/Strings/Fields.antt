-- ===== src/Strings/Fields.antt =====
-- `strings.Fields`.
use gsnet.Common.{
  ℕ, ◌≡◌, ◌≢◌, refl, ap, ◌∙◌, sym, List, [], ◌∷◌, ◌++◌, not, Bool, true, Text, if◌then◌else◌, arith,
  all,
}
use mathlib.Core.List.{append_assoc, append-nil}
use gsnet.Strings.Space.{is_space}

unfoldable pub flush : Text → List Text → List Text
flush [] rest = rest
flush (c ∷ cs) rest = (c ∷ cs) ∷ rest

-- The fields of `s`, where `word` is the part of a field that has been read.
unfoldable pub fields_onto : Text → Text → List Text
unfolding flush
fields_onto word [] = flush word []
fields_onto word (c ∷ cs) =
    let next = flush word (fields_onto [] cs) in
    let same = fields_onto (word ++ c ∷ []) cs in if is_space c then next else same

abbrev pub fields : Text → List Text
fields = fields_onto []

-- A field: some characters, none of them a space.
abbrev pub plain : Text → Bool
plain w = all (λ c. not (is_space c)) w

pub record IsWord (w : Text) : Type 0 where
  pub ne : w ≢ []
  pub plain_chars : plain w ≡ true

fields_onto-append :
    (w word rest : Text)
    → plain w ≡ true
    → fields_onto word (w ++ rest) ≡ fields_onto (word ++ w) rest
unfolding fields_onto
fields_onto-append [] word rest h = rw append-nil
fields_onto-append (c ∷ w) word rest h =
    ground (arith, fields_onto-append w (word ++ c ∷ []) rest, append_assoc word (c ∷ []) w)

flush_word : (w : Text) (rest : List Text) → w ≢ [] → flush w rest ≡ w ∷ rest
unfolding flush
flush_word [] rest h = absurd (h refl)
flush_word (c ∷ w) rest h = refl

-- One field, a space, and what follows.
pub fields-cons :
    (w : Text) (c : ℕ) (rest : Text)
    → IsWord w
    → is_space c ≡ true
    → fields (w ++ (c ∷ rest)) ≡ w ∷ fields rest
fields-cons w c rest h s =
    fields_onto-append w [] (c ∷ rest) h.plain_chars
    ∙ (unfold fields_onto in rw s (flush_word w (fields rest) h.ne))

-- One field at the end.
pub fields_last : (w : Text) → IsWord w → fields w ≡ w ∷ []
fields_last w h =
    ap (fields_onto []) (sym (append-nil w))
    ∙ fields_onto-append w [] [] h.plain_chars
    ∙ (unfold fields_onto in flush_word w [] h.ne)
