-- ===== src/Strings/Fold.antt =====
-- Letter case, where one of two texts is ASCII: three letters outside ASCII matter, two that fold to k and s
-- (`strings.EqualFold`), and two that have k and i as lower case (`strings.ToLower`). Where two arbitrary texts
-- are compared, in `cmdGet`, `mutateConf` and `cmdDel`, the comparison is a parameter.
use gsnet.Common.{ℕ, ◌+◌, ◌≡◌, map, ◌&&◌, Bool, Text, text_eq, leb, ◌==◌, if◌then◌else◌, arith}

unfoldable pub fold : ℕ → ℕ
fold c =
    if leb b'A' c && leb c b'Z'
    then c + 32
    else if c == 0x17f
    then b's'
    else if c == 0x212a
    then b'k'
    else c

-- `strings.EqualFold(s, t)`, where one of the two is ASCII.
unfoldable pub equal_fold : Text → Text → Bool
unfolding fold text_eq
equal_fold s t = text_eq (map fold s) (map fold t)

unfoldable pub lower : ℕ → ℕ
lower c =
    if leb b'A' c && leb c b'Z'
    then c + 32
    else if c == 0x130
    then b'i'
    else if c == 0x212a
    then b'k'
    else c

-- `strings.ToLower(s)`, where it is compared with ASCII texts only.
unfoldable pub to_lower : Text → Text
unfolding lower
to_lower = map lower

fold-fold : (c : ℕ) → fold (fold c) ≡ fold c
unfolding fold
fold-fold c = ground arith
