-- ===== src/Subnet/Printed.antt =====
-- What `String` prints is parsed again, but for a weight of 0.
use gsnet.Common.{◌≡◌, ap, sym, ◌∙◌, true, some, if◌then◌else◌, Bool-cases, inl, inr}
use gsnet.Common.Int.{pos, int_eq}
use gsnet.Strings.Decimal.{itoa, atoi, IsInt, atoi-itoa}
use gsnet.Strings.Cut.{lacks, cut-append, cut-lacks}
use gsnet.Gossip.Plane.Claims.{int_eq_eq}
use gsnet.Subnet.{
  Nets, Subnet, default_weight, body_text, print, parse_body, weighed, parse_parts, parse,
}

-- A subnet whose prefix or MAC is printed without a `#` and parsed again is parsed again as a whole, with
-- its weight if that is not 0; a weight of 0 becomes the default weight.
pub parse-print :
    {P : Type 0} (net : Nets P) (s : Subnet P)
    → IsInt s.weight
    → lacks b'#' (body_text net s.prefix s.mac) ≡ true
    → parse_body net (body_text net s.prefix s.mac) ≡ some (s.prefix, s.mac)
    → parse net (print net s)
      ≡ some (record s { weight = if int_eq s.weight (pos 0) then default_weight else s.weight })
unfolding parse print parse_parts weighed
parse-print {P} net s h clean again =
    let body = body_text net s.prefix s.mac in
    elim (Bool-cases (int_eq s.weight (pos 0))) [
      | inl zero_weight ↦
          rw (zero_weight, cut-lacks b'#' body clean)
            (ap (λ b. weighed net b (some default_weight)) again)
      | inr e ↦ elim (Bool-cases (int_eq s.weight default_weight)) [
        | inl d ↦
            rw (e, d, cut-lacks b'#' body clean)
              (ap (λ b. weighed net b (some default_weight)) again
                ∙ ap (λ n. some (record s { weight = n }))
                    (sym (int_eq_eq s.weight default_weight d)))
        | inr d ↦
            rw (e, d, cut-append b'#' body (itoa s.weight) clean)
              (ap (λ b. weighed net b (atoi (itoa s.weight))) again
                ∙ ap (weighed net (some (s.prefix, s.mac))) (atoi-itoa s.weight h))
      ]
    ]
