-- ===== src/Invite/File/Rendered.antt =====
-- `ParseFile` reads back what `Render` writes.
use gsnet.Common.{
  ◌≡◌, refl, ◌∙◌, List, [], ◌∷◌, ◌++◌, map, true, Text, text_eq, text_eq_iff, all, arith,
}
use gsnet.Strings.Space.{trim_space}
use gsnet.Config.{Entry, lines_onto, drop_cr, byte_len}
use gsnet.Config.Lines.{lines_onto-cons}
use gsnet.Config.Rendered.{AllEntries}
use gsnet.Invite.File.{
  Block, File, ok, and_then, flush, blocks_onto, hosts_of, file_of, parse_file, write_block,
  separator, write_hosts, render,
}
use gsnet.Invite.File.Blocks.{block_entries, blocks_onto-write_block}
use gsnet.Invite.File.Filled.{
  is_other, unnamed-rest_entries, block_onto-block_entries, get_first-block_entries,
}

-- A block whose entries the configuration format can carry, and whose other keys are not those that
-- the block has a field for. Its name is not empty, since a value of an entry is not.
pub record IsBlock (net : Text) (b : Block) : Type 0 where
  pub entries : AllEntries (block_entries net b)
  pub others : all is_other b.other ≡ true

abbrev pub AllBlocks : List Block → Type 0
AllBlocks [] = Unit
AllBlocks (h ∷ hs) = IsBlock [] h × AllBlocks hs

pub record IsFile (f : File) : Type 0 where
  pub invitee : IsBlock f.netname f.invitee
  pub hosts : AllBlocks f.hosts

-- The line between two blocks ends the block that is read.
blocks_onto-separator :
    (current : List Entry) (rest : Text)
    → blocks_onto current (lines_onto [] (separator ++ (b'\n' ∷ rest)))
      ≡ and_then (blocks_onto [] (lines_onto [] rest)) (λ bs. ok (flush current bs))
unfolding trim_space drop_cr byte_len text_eq
blocks_onto-separator current rest =
    rw (lines_onto-cons separator rest refl) (unfold blocks_onto in refl)

blocks_onto-render :
    (net : Text) (b : Block) (hs : List Block)
    → IsBlock net b
    → AllBlocks hs
    → blocks_onto [] (lines_onto [] (write_block net b ++ write_hosts hs))
      ≡ ok (block_entries net b ∷ map (block_entries []) hs)
unfolding write_hosts flush
blocks_onto-render net b [] h all_h =
    blocks_onto-write_block net b [] h.entries (unnamed-rest_entries net b h.others)
    ∙ unfold blocks_onto lines_onto in refl
blocks_onto-render net b (g ∷ hs) h all_h =
    rw
      (
        blocks_onto-write_block net b (write_hosts (g ∷ hs)) h.entries
            (unnamed-rest_entries net b h.others),
        blocks_onto-separator (block_entries net b) (write_block [] g ++ write_hosts hs),
        blocks_onto-render [] g hs all_h.0 all_h.1,
      )
      refl

hosts_of-block_entries :
    (hs : List Block) → AllBlocks hs → hosts_of (map (block_entries []) hs) ≡ ok hs
unfolding hosts_of
hosts_of-block_entries [] h = refl
hosts_of-block_entries (g ∷ hs) h =
    rw (block_onto-block_entries [] g h.0.others, hosts_of-block_entries hs h.1)
      (ground (arith, text_eq_iff g.name [], h.0.entries.0.value.ne))

file_of-block_entries :
    (f : File)
    → IsFile f
    → file_of (block_entries f.netname f.invitee ∷ map (block_entries []) f.hosts) ≡ ok f
unfolding file_of
file_of-block_entries f h =
    rw
      (
        block_onto-block_entries f.netname f.invitee h.invitee.others,
        hosts_of-block_entries f.hosts h.hosts,
        get_first-block_entries f.netname f.invitee h.invitee.others,
      )
      (ground (arith, text_eq_iff f.invitee.name [], h.invitee.entries.0.value.ne))

-- `ParseFile` gives back the invitation that `Render` has written: the name of the network, the block of
-- the invitee and the blocks of the hosts, with every entry in its place. The values and the other keys
-- are those that the configuration format can carry, and no other key is one that a block has a field for.
pub parse_file-render : (f : File) → IsFile f → parse_file (render f) ≡ ok f
unfolding parse_file render
parse_file-render f h =
    rw (blocks_onto-render f.netname f.invitee f.hosts h.invitee h.hosts)
      (file_of-block_entries f h)
