-- ===== src/Invite/Tests.antt =====
-- The theorems on invitations at one URL.
use gsnet.Common.{
  Bool, true, not, ◌&&◌, ◌++◌, ltb, Text, text_eq, text_eq_iff, [], ◌∷◌, ◌≡◌, refl, codes, arith,
}
use gsnet.Strings.Space.{is_space, starts_plain, ends_plain}
use gsnet.Strings.Fold.{equal_fold, to_lower}
use gsnet.Strings.Cut.{lacks}
use gsnet.Dict.{get}
use gsnet.Config.Keys.{canonical_key}
use gsnet.Config.Rendered.{IsEntry}
use gsnet.Invite.File.Blocks.{entry, rest_entries, entry_if_set}
use gsnet.Config.{Entry, is_comment, byte_len, max_line}
use gsnet.Invite.File
use gsnet.Invite.File.{Block, File, parse_file, render}
use gsnet.Invite.File.Rendered.{IsFile, parse_file-render}

abbrev key_entry : Entry
key_entry = record { key = codes "Ed25519PublicKey"; value = codes "abc" }

abbrev beta : Block
beta = record {
  name = codes "beta";
  address = [];
  connect_to = codes "alpha" ∷ [];
  ifconfig = codes "10.0.0.2/24" ∷ [];
  route = [];
  other = [];
}

abbrev alpha : Block
alpha = record {
  name = codes "alpha";
  address = codes "192.0.2.1";
  connect_to = [];
  ifconfig = [];
  route = [];
  other = key_entry ∷ [];
}

abbrev letter : File
letter = record { netname = codes "home"; invitee = beta; hosts = alpha ∷ [] }

-- The conditions on an entry as a test.
abbrev good : Text → Text → Bool
good k v =
    starts_plain k
    && ends_plain k
    && not (text_eq k [])
    && lacks b'=' k
    && lacks b'\n' k
    && not (is_comment k)
    && text_eq (canonical_key k) k
    && starts_plain v
    && ends_plain v
    && not (text_eq v [])
    && lacks b'\n' v
    && ltb (byte_len (k ++ (b' ' ∷ b'=' ∷ b' ' ∷ v))) max_line

good-IsEntry : (k v : Text) → good k v ≡ true → IsEntry (entry k v)
good-IsEntry k v h = record {
  key = record {
    trimmed = record { starts = ground arith; ends = ground arith };
    ne = ground (arith, text_eq_iff k []);
    no_equals = ground arith;
    no_newline = ground arith;
    no_comment = ground arith;
    canonical = ground (arith, text_eq_iff (canonical_key k) k);
  };
  value = record {
    trimmed = record { starts = ground arith; ends = ground arith };
    ne = ground (arith, text_eq_iff v []);
    no_newline = ground arith;
  };
  short = ground arith;
}

letter-IsFile : IsFile letter
unfolding is_space equal_fold text_eq canonical_key get to_lower byte_len rest_entries entry_if_set
letter-IsFile = record {
  invitee = record {
    entries = (
      good-IsEntry (codes "Name") (codes "beta") refl,
      (
        good-IsEntry (codes "Netname") (codes "home") refl,
        (
          good-IsEntry (codes "ConnectTo") (codes "alpha") refl,
          (good-IsEntry (codes "Ifconfig") (codes "10.0.0.2/24") refl, tt),
        ),
      ),
    );
    others = refl;
  };
  hosts = (
    record {
      entries = (
        good-IsEntry (codes "Name") (codes "alpha") refl,
        (
          good-IsEntry (codes "Address") (codes "192.0.2.1") refl,
          (good-IsEntry (codes "Ed25519PublicKey") (codes "abc") refl, tt),
        ),
      );
      others = refl;
    },
    tt,
  );
}

parse_file-render_example : parse_file (render letter) ≡ File.ok letter
parse_file-render_example = parse_file-render letter letter-IsFile
