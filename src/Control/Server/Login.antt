-- ===== src/Control/Server/Login.antt =====
-- Who gets through `authenticate`, and what the others get.
use gsnet.Common.{
  ℕ, ◌≡◌, ◌⊎◌, refl, ap, ◌∙◌, List, [], ◌∷◌, ◌++◌, true, none, some, Text, text_eq_iff,
  text_eq_refl, codes, arith, Bool-cases, inl, inr,
}
use mathlib.Core.List.{append-nil}
use gsnet.Strings.Space.{trim_space, trim_space_id, IsTrimmed, is_space, ends_plain-append}
use gsnet.Strings.Fields.{fields, fields-cons, fields_last, IsWord}
use gsnet.Strings.Cut.{Parts, cut, cut-append, lacks, ended_lines}
use gsnet.Strings.Kept.{plain-lacks}
use gsnet.Config.Rendered.{lacks-append}
use gsnet.Control.Server.{
  Server, authenticate, serve_lines, greeting, ack, logged_in, handle, written_after, cookie_in,
}

-- The line holds the cookie where a client puts it.
pub record Holds (line cookie : Text) : Type 0 where
  pub rest : List Text
  pub split : fields line ≡ codes "0" ∷ (b'^' ∷ cookie) ∷ rest

cookie_in_split :
    (cookie : Text) (fs : List Text)
    → cookie_in cookie fs ≡ true
    → (rest : List Text) × (fs ≡ codes "0" ∷ (b'^' ∷ cookie) ∷ rest)
unfolding cookie_in
cookie_in_split cookie [] h = cc h
cookie_in_split cookie (x ∷ []) h = cc h
cookie_in_split cookie (x ∷ [] ∷ fs) h = cc h
cookie_in_split cookie (x ∷ (c ∷ cs) ∷ fs) h =
    let zero_class : x ≡ codes "0" = ground (arith, text_eq_iff x (codes "0")) in
    let caret : c ≡ b'^' = ground arith in
    let same : cs ≡ cookie = ground (arith, text_eq_iff cs cookie) in
    (
      fs,
      ap (λ (y : Text). y ∷ (c ∷ cs) ∷ fs) zero_class
          ∙ ap (λ (d : ℕ). codes "0" ∷ (d ∷ cs) ∷ fs) caret
          ∙ ap (λ (z : Text). codes "0" ∷ (b'^' ∷ z) ∷ fs) same,
    )

module _ {S : Type 0} (srv : Server S) where
  logged_in_lem :
      (s : S) (parts : Parts)
      → ((first more : Text) × (parts ≡ some (first, more)) × Holds (trim_space first) srv.cookie)
        ⊎ (logged_in srv s parts ≡ (s, []))
  unfolding logged_in authenticate
  logged_in_lem s none = inr refl
  logged_in_lem s (some (first, more)) = elim (Bool-cases (authenticate srv (trim_space first))) [
    | inl good ↦
        let (rest, h) = cookie_in_split srv.cookie (fields (trim_space first)) good in
        inl (first, more, refl, record { rest = rest; split = h })
    | inr bad ↦ inr (rw bad refl)
  ]

  -- Nothing reaches the handler of a client that does not know the cookie. Unless the first line of a
  -- connection has the class 0 and the cookie behind `^` as its first two fields, the state is as before,
  -- and all that is written is the greeting.
  pub handle_guarded :
      (s : S) (input : Text)
      → ((first more : Text) × (cut b'\n' input ≡ some (first, more))
          × Holds (trim_space first) srv.cookie)
        ⊎ (handle srv s input ≡ (s, greeting srv))
  unfolding handle written_after
  handle_guarded s input = elim (logged_in_lem s (cut b'\n' input)) [
    | inl known ↦ inl known
    | inr stranger ↦ inr (rw stranger (ap (λ t. (s, t)) (append-nil (greeting srv))))
  ]

  -- The login line of the client: `"0 ^%s 0\n"`.
  abbrev pub login_line : Text → Text
  login_line cookie = codes "0 ^" ++ (cookie ++ codes " 0")

  fields_login :
      IsWord srv.cookie
      → fields (login_line srv.cookie) ≡ codes "0" ∷ (b'^' ∷ srv.cookie) ∷ codes "0" ∷ []
  unfolding is_space
  fields_login h =
      let digit : IsWord (codes "0") = record { ne = λ e. cc e; plain_chars = refl } in
      let word : IsWord (b'^' ∷ srv.cookie) = record {
        ne = λ e. cc e;
        plain_chars = h.plain_chars;
      } in
      fields-cons (codes "0") b' ' (b'^' ∷ (srv.cookie ++ codes " 0")) digit refl
      ∙ ap (λ t. codes "0" ∷ t)
          (fields-cons (b'^' ∷ srv.cookie) b' ' (codes "0") word refl
            ∙ ap (λ t. (b'^' ∷ srv.cookie) ∷ t) (fields_last (codes "0") digit))

  login-IsTrimmed : IsTrimmed (login_line srv.cookie)
  unfolding is_space
  login-IsTrimmed = record {
    starts = refl;
    ends = ends_plain-append (b'0' ∷ b' ' ∷ b'^' ∷ srv.cookie) (codes " 0") (λ e. cc e);
  }

  login-authenticate : IsWord srv.cookie → authenticate srv (login_line srv.cookie) ≡ true
  unfolding authenticate cookie_in
  login-authenticate h =
      rw (fields_login h) (ground (arith, text_eq_refl srv.cookie, text_eq_refl (codes "0")))

  -- A client of the program that has the cookie is let in: the server writes the greeting and the
  -- acknowledgement, and then answers every line that the client has ended.
  pub handle-login :
      (s : S) (requests : Text)
      → IsWord srv.cookie
      → handle srv s (login_line srv.cookie ++ (b'\n' ∷ requests)) ≡ (
          let (t, out) = serve_lines srv s (ended_lines [] requests) in
          (t, greeting srv ++ (ack srv ++ out)))
  unfolding handle logged_in written_after
  handle-login s requests h =
      let line = login_line srv.cookie in
      let one_line : lacks b'\n' line ≡ true =
        lacks-append b'\n' srv.cookie (codes " 0") (plain-lacks srv.cookie h.plain_chars) refl in
      ap (λ x. written_after srv (greeting srv) (logged_in srv s x))
        (cut-append b'\n' line requests one_line)
      ∙ rw (trim_space_id line login-IsTrimmed, login-authenticate h) refl
