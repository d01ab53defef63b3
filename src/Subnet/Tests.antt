-- ===== src/Subnet/Tests.antt =====
-- A MAC subnet of weight 0, over functions that know no prefixes.
use gsnet.Common.{◌≡◌, refl, [], ◌∷◌, true, false, none, some, Text, codes, arith, if◌then◌else◌}
use gsnet.Common.Int.{pos, int_eq}
use gsnet.Subnet.{Nets, Subnet, default_weight, parse_body, parse_mac, parse, print}
use gsnet.Strings.Cut.{split_onto}
use gsnet.Subnet.Printed.{parse-print}

abbrev no_nets : Nets Text
no_nets = record {
  no_prefix = [];
  contains = λ p a. false;
  prefix_text = λ p. p;
  mac_text = λ m. codes "0:1:2:3:4:5";
  parse_mac_strict = λ s. none;
  parse_addr = λ s. none;
  parse_prefix = λ s. none;
  is_masked = λ p. true;
}

abbrev bridge : Subnet Text
bridge = record { prefix = []; mac = some (0 ∷ 1 ∷ 2 ∷ 3 ∷ 4 ∷ 5 ∷ []); weight = pos 0 }

body_parsed :
    parse_body no_nets (codes "0:1:2:3:4:5") ≡ some ([], some (0 ∷ 1 ∷ 2 ∷ 3 ∷ 4 ∷ 5 ∷ []))
unfolding parse_body parse_mac split_onto
body_parsed = refl

parse-print_example :
    parse no_nets (print no_nets bridge)
    ≡ some (record bridge { weight = if int_eq (pos 0) (pos 0) then default_weight else pos 0 })
parse-print_example = parse-print no_nets bridge (omega arith) refl body_parsed
