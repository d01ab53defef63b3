-- ===== src/Daemon/Peers/Keyed.antt =====
-- Which peers the daemon gives to the data plane.
use gsnet.Common.{
  ◌*◌, ◌≡◌, ◌≢◌, Option, none, length, refl, List, [], ◌∷◌, true, false, some, Text, text_eq,
  text_eq_refl, codes, arith, Bool-cases, Option-cases, inl, inr,
}
use std.Path.{subst}
use gsnet.Dict.{contains}
use gsnet.Config.{Entry, get_first}
use gsnet.Config.Directory.{Disk, Loading, loaded, failed, parse_file}
use gsnet.DataPlane.{Bytes, Prefix, Peer, Mode, switch, hub, router}
use gsnet.Subnet
use gsnet.Daemon.Paths.{Paths, host_file}
use gsnet.Daemon.Loaded.{Parsers, Settings}
use gsnet.Daemon.Peers.{
  World, ParsedSubnet, with_parse, with_fields, full_prefix, subnet_prefixes, allowed_ips_for,
  peer_from, keyed, peer_in, peers_of, build_state,
}

module _ {N : Type 0} (ps : Parsers N) (w : World N) (l : Settings N) (disk : Disk)
    (p : Paths) where
  -- In router mode: the prefix of a subnet that the graph has for the peer, which parses and has no MAC.
  pub record IsOwnSubnet (peer : Peer) (q : Prefix) : Type 0 where
    pub text : Text
    pub in_graph : contains text (w.node_subnets peer.name) ≡ true
    pub subnet : N
    pub parsed : ps.parse_subnet text ≡ some subnet
    pub no_mac : w.mac_of subnet ≡ none
    pub same : q ≡ w.prefix_of subnet

  -- Otherwise: all bits of the peer's underlay address.
  pub record IsOwnAddress (peer : Peer) (q : Prefix) : Type 0 where
    pub address : Bytes
    pub underlay : peer.underlay_addr ≡ some address
    pub bits : q ≡ record { addr = address; bits = 8 * length address }

  abbrev pub IsOwn : Mode → Peer → Prefix → Type 0
  IsOwn router peer q = IsOwnSubnet peer q
  IsOwn switch peer q = IsOwnAddress peer q
  IsOwn hub peer q = IsOwnAddress peer q

  abbrev pub AllOwn : Mode → Peer → List Prefix → Type 0
  AllOwn m peer [] = Unit
  AllOwn m peer (q ∷ qs) = IsOwn m peer q × AllOwn m peer qs

  -- A peer that may be configured: it is a node of the graph and not this node, its key is the one in its
  -- own host file, and it is allowed no address but its own.
  pub record IsPeer (nodes : List Text) (peer : Peer) : Type 0 where
    pub known : contains peer.name nodes ≡ true
    pub other : text_eq peer.name l.node_name ≡ false
    pub entries : List Entry
    pub in_file : parse_file disk (host_file p peer.name) ≡ loaded entries
    pub key : keyed ps w (get_first entries (codes "WGPublicKey")) ≡ some peer.wg_public
    pub allowed : AllOwn l.mode peer peer.allowed_ips

  abbrev pub AllPeers : List Text → List Peer → Type 0
  AllPeers nodes [] = Unit
  AllPeers nodes (q ∷ qs) = IsPeer nodes q × AllPeers nodes qs

  subnet_prefixes-AllOwn :
      (peer : Peer) (ss : List Text)
      → ((t : Text) → contains t ss ≡ true → contains t (w.node_subnets peer.name) ≡ true)
      → AllOwn router peer (subnet_prefixes ps w ss)
  unfolding subnet_prefixes contains
  subnet_prefixes-AllOwn peer [] sub = tt
  subnet_prefixes-AllOwn peer (s ∷ ss) sub =
      let rest = subnet_prefixes-AllOwn peer ss (λ t h. sub t (ground arith)) in
      elim (Option-cases (ps.parse_subnet s)) [
        | inl bad ↦ rw (bad, AllOwn, subnet_prefixes) rest
        | inr (n, good) ↦ elim (Option-cases (w.mac_of n)) [
          | inr (mac, has) ↦ rw (good, has, AllOwn, subnet_prefixes) rest
          | inl plain ↦
              rw (good, plain, AllOwn, subnet_prefixes)
                (
                  record {
                    text = s;
                    in_graph = sub s (ground (arith, text_eq_refl s));
                    subnet = n;
                    parsed = good;
                    no_mac = plain;
                    same = refl;
                  },
                  rest,
                )
        ]
      ]

  full_prefix-AllOwn :
      (m : Mode) (peer : Peer) (o : Option Bytes)
      → m ≢ router
      → peer.underlay_addr ≡ o
      → AllOwn m peer (full_prefix o)
  unfolding full_prefix
  full_prefix-AllOwn m peer none other h = tt
  full_prefix-AllOwn switch peer (some a) other h =
      (record { address = a; underlay = h; bits = refl }, tt)
  full_prefix-AllOwn hub peer (some a) other h =
      (record { address = a; underlay = h; bits = refl }, tt)
  full_prefix-AllOwn router peer (some a) other h = absurd (other refl)

  allowed_ips_for-AllOwn :
      (m : Mode) (peer : Peer) → AllOwn m peer (allowed_ips_for ps w m peer.name peer.underlay_addr)
  unfolding allowed_ips_for
  allowed_ips_for-AllOwn switch peer =
      full_prefix-AllOwn switch peer peer.underlay_addr (λ e. cc e) refl
  allowed_ips_for-AllOwn hub peer = full_prefix-AllOwn hub peer peer.underlay_addr (λ e. cc e) refl
  allowed_ips_for-AllOwn router peer =
      subnet_prefixes-AllOwn peer (w.node_subnets peer.name) (λ t h. h)

  from-IsPeer :
      (nodes : List Text) (n : Text) (es : List Entry) (key : Bytes)
      → contains n nodes ≡ true
      → text_eq n l.node_name ≡ false
      → parse_file disk (host_file p n) ≡ loaded es
      → keyed ps w (get_first es (codes "WGPublicKey")) ≡ some key
      → IsPeer nodes (peer_from ps w l n es key)
  from-IsPeer nodes n es key here other file good = record {
    known = unfold peer_from in here;
    other = unfold peer_from in other;
    entries = es;
    in_file = unfold peer_from in file;
    key = unfold peer_from in good;
    allowed = unfold peer_from in allowed_ips_for-AllOwn l.mode (peer_from ps w l n es key);
  }

  peer_in-IsPeer :
      (nodes : List Text) (n : Text) (q : Peer) (o : Loading (List Entry))
      → contains n nodes ≡ true
      → text_eq n l.node_name ≡ false
      → parse_file disk (host_file p n) ≡ o
      → peer_in ps w l n o ≡ some q
      → IsPeer nodes q
  unfolding peer_in
  peer_in-IsPeer nodes n q (failed e) here other file h = cc h
  peer_in-IsPeer nodes n q (loaded es) here other file h =
      elim (Option-cases (keyed ps w (get_first es (codes "WGPublicKey")))) [
        | inl bad ↦ cc (rw (bad, peer_in) at h)
        | inr (key, good) ↦
            let same : peer_from ps w l n es key ≡ q = cc (rw (good, peer_in) at h) in
            subst (IsPeer nodes) same (from-IsPeer nodes n es key here other file good)
      ]

  peers_of-AllPeers :
      (nodes ns : List Text)
      → ((m : Text) → contains m ns ≡ true → contains m nodes ≡ true)
      → AllPeers nodes (peers_of ps w l disk p ns)
  unfolding peers_of contains
  peers_of-AllPeers nodes [] sub = tt
  peers_of-AllPeers nodes (n ∷ ns) sub =
      let rest = peers_of-AllPeers nodes ns (λ m h. sub m (ground arith)) in
      let here = sub n (ground (arith, text_eq_refl n)) in
      elim (Bool-cases (text_eq n l.node_name)) [
        | inl own ↦ rw own rest
        | inr other ↦ elim (Option-cases (peer_in ps w l n (parse_file disk (host_file p n)))) [
          | inl skip ↦ rw (other, skip) rest
          | inr (q, found) ↦
              rw (other, found)
                (
                  peer_in-IsPeer nodes n q (parse_file disk (host_file p n)) here other refl found,
                  rest,
                )
        ]
      ]

-- Every peer of the state that the daemon builds is a node of the graph other than itself, has the
-- WireGuard key of its own host file, and is allowed no address but its own: in router mode the prefixes of
-- subnets that the graph has for it, `subnet.Parse` takes and that have no MAC, otherwise all bits of its
-- underlay address.
pub build_state-AllPeers :
    (net : Subnet.Nets Prefix) (ps : Parsers ParsedSubnet) (w : World ParsedSubnet)
    (l : Settings ParsedSubnet) (disk : Disk) (p : Paths) (nodes : List Text)
    → AllPeers
        (with_parse net ps)
        (with_fields w)
        l
        disk
        p
        nodes
        (build_state (with_parse net ps) (with_fields w) l disk p nodes).peers
unfolding build_state
build_state-AllPeers net ps w l disk p nodes =
    peers_of-AllPeers (with_parse net ps) (with_fields w) l disk p nodes nodes (λ m h. h)
