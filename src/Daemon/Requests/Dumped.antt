-- ===== src/Daemon/Requests/Dumped.antt =====
-- What the control program prints of the answer to a dump.
use gsnet.Common.{
  ◌≡◌, ◌≢◌, refl, sym, ap, ◌∙◌, List, [], ◌∷◌, ◌++◌, map, Bool, true, false, Text, text_eq,
  text_eq_iff, codes, arith,
}
use mathlib.Core.List.{append_assoc}
use gsnet.Common.Int.{ℤ}
use gsnet.Strings.Decimal.{itoa}
use gsnet.Strings.Space.{ends_plain, ends_plain-append, newline-is_space, cr-is_space, is_space}
use gsnet.Strings.Cut.{lacks, ended_lines}
use gsnet.Strings.Kept.{plain-lacks, plain-IsTrimmed}
use gsnet.Config.Rendered.{lacks-append}
use gsnet.Control.{class_request}
use gsnet.Control.Lines.{itoa-IsWord}
use gsnet.Control.Server.{reply_line}
use gsnet.Control.Client.{trim_eol, terminator, read_dump}
use gsnet.Graph
use gsnet.DataPlane.Linux.Wireguard.{stats}
use gsnet.Config.Directory.{Disk}
use gsnet.Control.Client.Answered.{ended_lines-cons}
use gsnet.Daemon.Running.{Running, Site}
use gsnet.Daemon.Requests.{
  dump_lines, edge_item, subnet_item, traffic_items, Texts, answer, req_dump_nodes, req_dump_edges,
  req_dump_subnets, req_dump_traffic, req_dump_connections, req_dump_graph, req_dump_invitations,
}

trim_eol-plain : (s : Text) → ends_plain s ≡ true → trim_eol s ≡ s
unfolding trim_eol
trim_eol-plain [] h = refl
trim_eol-plain (c ∷ []) h = ground (arith, newline-is_space, cr-is_space)
trim_eol-plain (c ∷ d ∷ s) h = ground (arith, trim_eol-plain (d ∷ s) h, text_eq_iff (d ∷ s) [])

-- An item that is one line, and more than blanks at its end.
pub record IsItem (i : Text) : Type 0 where
  pub ne : i ≢ []
  pub one_line : lacks b'\n' i ≡ true
  pub ends : ends_plain i ≡ true

abbrev pub AllItems : List Text → Type 0
AllItems [] = Unit
AllItems (i ∷ is) = IsItem i × AllItems is

-- The line of an item.
abbrev pub item_line : ℤ → Text → Text
item_line t i = terminator t ++ (b' ' ∷ i)

longer : (a b : Text) → b ≢ [] → text_eq (a ++ b) a ≡ false
unfolding text_eq
longer [] [] h = absurd (h refl)
longer [] (x ∷ b) h = refl
longer (x ∷ a) b h = ground (arith, longer a b h)

module _ (t : ℤ) where
  terminator-lacks : lacks b'\n' (terminator t) ≡ true
  unfolding terminator
  terminator-lacks =
      lacks-append b'\n' (itoa class_request) (b' ' ∷ itoa t)
        (plain-lacks (itoa class_request) (itoa-IsWord class_request).plain_chars)
        (ground (arith, plain-lacks (itoa t) (itoa-IsWord t).plain_chars))

  terminator-ends : ends_plain (terminator t) ≡ true
  unfolding terminator
  terminator-ends =
      ends_plain-append (itoa class_request) (b' ' ∷ itoa t) (λ e. cc e)
      ∙ ends_plain-append (b' ' ∷ []) (itoa t) (itoa-IsWord t).ne
      ∙ (plain-IsTrimmed (itoa t) (itoa-IsWord t).plain_chars).ends

  reply_line-item : (i : Text) → reply_line t i ≡ item_line t i ++ (b'\n' ∷ [])
  unfolding reply_line terminator
  reply_line-item i =
      ap (λ s. s ++ (b'\n' ∷ []))
        (sym (append_assoc (itoa class_request) (b' ' ∷ itoa t) (b' ' ∷ i)))

  item_line-lacks : (i : Text) → IsItem i → lacks b'\n' (item_line t i) ≡ true
  item_line-lacks i h =
      lacks-append b'\n' (terminator t) (b' ' ∷ i) terminator-lacks (ground (arith, h.one_line))

  item_line-ends : (i : Text) → IsItem i → ends_plain (item_line t i) ≡ true
  item_line-ends i h =
      ends_plain-append (terminator t) (b' ' ∷ i) (λ e. cc e)
      ∙ ends_plain-append (b' ' ∷ []) i h.ne
      ∙ h.ends

  -- The program prints the lines of a dump, one for each item, and stops at its end.
  pub read_dump-dump_lines :
      (is : List Text)
      → AllItems is
      → read_dump (terminator t) (ended_lines [] (dump_lines t is)) ≡ (map (item_line t) is, true)
  unfolding dump_lines read_dump
  read_dump-dump_lines [] h = rw (ended_lines-cons (terminator t) [] [] terminator-lacks) (
      rw
        (
          trim_eol-plain (terminator t) terminator-ends,
          (text_eq_iff (terminator t) (terminator t)).1 refl,
        )
        refl)
  read_dump-dump_lines (i ∷ is) h =
      let split : ended_lines [] (reply_line t i ++ dump_lines t is)
          ≡ item_line t i ∷ ended_lines [] (dump_lines t is) =
        ap (λ s. ended_lines [] (s ++ dump_lines t is)) (reply_line-item i)
        ∙ ap (ended_lines []) (append_assoc (item_line t i) (b'\n' ∷ []) (dump_lines t is))
        ∙ ended_lines-cons (item_line t i) [] (dump_lines t is) (item_line-lacks i h.0) in
      rw
        (
          split,
          read_dump,
          trim_eol-plain (item_line t i) (item_line-ends i h.0),
          longer (terminator t) (b' ' ∷ i) (λ e. cc e),
          read_dump-dump_lines is h.1,
        )
        refl

  -- An answer that is no dump is printed, and then the program waits for a line that does not come.
  read_dump-zero :
      read_dump (terminator t) (ended_lines [] (reply_line t (codes "0")))
      ≡ (item_line t (codes "0") ∷ [], false)
  unfolding read_dump ended_lines is_space
  read_dump-zero =
      let zero_item : IsItem (codes "0") = record {
        ne = λ e. cc e;
        one_line = refl;
        ends = refl;
      } in
      let split : ended_lines [] (reply_line t (codes "0")) ≡ item_line t (codes "0") ∷ [] =
        ap (ended_lines []) (reply_line-item (codes "0"))
        ∙ ended_lines-cons (item_line t (codes "0")) [] []
            (item_line-lacks (codes "0") zero_item) in
      rw
        (
          split,
          read_dump,
          trim_eol-plain (item_line t (codes "0")) (item_line-ends (codes "0") zero_item),
          longer (terminator t) (b' ' ∷ codes "0") (λ e. cc e),
        )
        refl

module _ {N : Type 0} {K : Type 0} (site : Site N K) (texts : Texts) (disk : Disk) where
  -- What the program prints of the answer to a request, and whether it comes to an end.
  abbrev pub prints : Running N K → ℤ → List Text × Bool
  prints d t = read_dump (terminator t) (ended_lines [] (answer site texts disk d t).1)

  -- What the daemon has to say fits the lines of the protocol.
  pub record IsPrintable (d : Running N K) : Type 0 where
    pub nodes : AllItems (Graph.node_names d.plane.g)
    pub edges : AllItems (map edge_item (Graph.edges d.plane.g))
    pub subnets : AllItems (map subnet_item (Graph.all_subnets d.plane.g))
    pub traffic : AllItems (traffic_items (stats site.calls d.kernel d.last))

  -- A dump of the nodes, the edges, the subnets or the traffic is printed whole, a line for each item in
  -- order, and the program stops at its end. The names are such as the lines can carry.
  pub dumps_printed :
      (d : Running N K)
      → IsPrintable d
      → let g = d.plane.g in
        (prints d req_dump_nodes ≡ (map (item_line req_dump_nodes) (Graph.node_names g), true))
        × (prints d req_dump_edges
            ≡ (map (item_line req_dump_edges) (map edge_item (Graph.edges g)), true))
        × (prints d req_dump_subnets
            ≡ (map (item_line req_dump_subnets) (map subnet_item (Graph.all_subnets g)), true))
        × (prints d req_dump_traffic ≡ (
          map (item_line req_dump_traffic) (traffic_items (stats site.calls d.kernel d.last)),
          true,
        ))
  unfolding answer
  dumps_printed d h = (
    read_dump-dump_lines req_dump_nodes _ h.nodes,
    read_dump-dump_lines req_dump_edges _ h.edges,
    read_dump-dump_lines req_dump_subnets _ h.subnets,
    read_dump-dump_lines req_dump_traffic _ h.traffic,
  )

  -- A dump of the connections, the graph or the invitations never ends: the daemon has no case for the
  -- request, the program prints the one line that it gets, and waits for a terminator.
  pub dumps_unanswered :
      (d : Running N K)
      → (prints d req_dump_connections ≡ (item_line req_dump_connections (codes "0") ∷ [], false))
        × (prints d req_dump_graph ≡ (item_line req_dump_graph (codes "0") ∷ [], false))
        × (prints d req_dump_invitations ≡ (item_line req_dump_invitations (codes "0") ∷ [], false))
  unfolding answer
  dumps_unanswered d = (
    read_dump-zero req_dump_connections,
    read_dump-zero req_dump_graph,
    read_dump-zero req_dump_invitations,
  )
