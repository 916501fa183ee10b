-- ===== src/Base/Text.antt =====
-- The string functions of Go's standard library that the server calls, over code points: TrimSpace,
-- EqualFold, Fields and Join of package strings. A Go string that is not valid UTF-8 is not modelled.
pub mod Fold
use Prim.Native.Char.{code}
use Prim.Native.String.{String, slice}
use mathlib.Core.Path.{◌≡◌, refl}
use mathlib.Core.Bool.{Bool, true, false, ◌&&◌, ◌||◌}
use mathlib.Core.List.{List, [], ◌∷◌}
use Prim.Native.Nat.{ℕ, zero, suc, ◌+◌, ◌-◌, ◌*◌, ◌/◌, ◌%◌}
use authserver_go.Base.Tests.{leb, nat_beq, if◌then◌else◌}
use mathlib.Core.Option.{Option, none, some}
use authserver_go.Base.Int.{ℤ, pos, negsuc}
use authserver_go.Base.Equality.{◌==◌, string_eq}

-- unicode.IsSpace
unfoldable pub is_space : ℕ → Bool
is_space c =
    (leb 0x09 c && leb c 0x0d)
    || nat_beq c 0x20
    || nat_beq c 0x85
    || nat_beq c 0xa0
    || nat_beq c 0x1680
    || (leb 0x2000 c && leb c 0x200a)
    || nat_beq c 0x2028
    || nat_beq c 0x2029
    || nat_beq c 0x202f
    || nat_beq c 0x205f
    || nat_beq c 0x3000

unfoldable pub trim_left : String → String
unfolding is_space
trim_left String.[] = String.[]
trim_left (String.◌∷◌ c s) =
    let rest = trim_left s in if is_space (code c) then rest else String.◌∷◌ c s

-- A text of spaces loses them all.
unfoldable pub trim_right : String → String
unfolding is_space
trim_right String.[] = String.[]
trim_right (String.◌∷◌ c s) =
    let rest = trim_right s in
    if is_space (code c) && rest == "" then String.[] else String.◌∷◌ c rest

-- strings.TrimSpace
unfoldable pub trim_space : String → String
unfolding trim_left trim_right
trim_space s = trim_right (trim_left s)

-- The simple folding of the letters that fold to ASCII: A to Z, the Kelvin sign and the long s.
unfoldable pub fold_rune : ℕ → ℕ
fold_rune c =
    if leb b'A' c && leb c b'Z'
    then c + 32
    else if nat_beq c 0x212a
    then b'k'
    else if nat_beq c 0x17f
    then b's'
    else c

-- strings.EqualFold. It is exact where one side is ASCII; other letters are compared as they are.
unfoldable pub equal_fold : String → String → Bool
unfolding fold_rune
equal_fold String.[] String.[] = true
equal_fold (String.◌∷◌ c s) (String.◌∷◌ d t) =
    nat_beq (fold_rune (code c)) (fold_rune (code d)) && equal_fold s t
equal_fold _ _ = false

unfoldable pub concat : String → String → String
concat String.[] t = t
concat (String.◌∷◌ c s) t = String.◌∷◌ c (concat s t)

-- strings.HasPrefix(s, prefix), the prefix first
unfoldable pub has_prefix : String → String → Bool
has_prefix String.[] s = true
has_prefix (String.◌∷◌ c p) String.[] = false
has_prefix (String.◌∷◌ c p) (String.◌∷◌ d s) = nat_beq (code c) (code d) && has_prefix p s

-- s[n:], for a cut behind ASCII characters
unfoldable pub drop_chars : ℕ → String → String
drop_chars zero s = s
drop_chars (suc n) String.[] = String.[]
drop_chars (suc n) (String.◌∷◌ c s) = drop_chars n s

-- len of a string, and len([]rune(s)): the bytes of its UTF-8, and its code points.
unfoldable pub rune_len : ℕ → ℕ
rune_len c = if leb c 0x7f then 1 else if leb c 0x7ff then 2 else if leb c 0xffff then 3 else 4

unfoldable pub byte_len : String → ℕ
unfolding rune_len
byte_len String.[] = 0
byte_len (String.◌∷◌ c s) = rune_len (code c) + byte_len s

unfoldable pub rune_count : String → ℕ
rune_count String.[] = 0
rune_count (String.◌∷◌ c s) = 1 + rune_count s

-- The digit of a number below ten.
unfoldable pub digit : ℕ → String
digit n = slice "0123456789" n (suc n)

-- The decimal digits, with the digits that are left at most.
unfoldable pub digits : ℕ → ℕ → String
unfolding concat digit
digits zero n = ""
digits (suc fuel) n =
    let rest = digits fuel (n / 10) in if leb n 9 then digit n else concat rest (digit (n % 10))

-- strconv.Itoa of a length. A number has no more digits than its successor.
unfoldable pub itoa : ℕ → String
unfolding digits
itoa n = digits (suc n) n

-- The value of a text of decimal digits, behind the digits read so far.
unfoldable pub read_digits : String → ℕ → Option ℕ
read_digits String.[] n = some n
read_digits (String.◌∷◌ c s) n =
    let rest = read_digits s (10 * n + (code c - b'0')) in
    if leb b'0' (code c) && leb (code c) b'9' then rest else none

unfoldable pub unsigned : String → Option ℕ
unfolding read_digits
unsigned s = if s == "" then none else read_digits s 0

abbrev int64_bound : ℕ
int64_bound = 9223372036854775808

unfoldable pub positive : Option ℕ → Option ℤ
positive none = none
positive (some n) = if leb int64_bound n then none else some (pos n)

unfoldable pub negative : Option ℕ → Option ℤ
negative none = none
negative (some zero) = some (pos 0)
negative (some (suc n)) = if leb int64_bound n then none else some (negsuc n)

-- strconv.Atoi: an optional sign and decimal digits, within int64; `none` is its error.
unfoldable pub atoi : String → Option ℤ
unfolding unsigned positive negative
atoi String.[] = none
atoi (String.◌∷◌ c s) =
    if nat_beq (code c) b'-'
    then negative (unsigned s)
    else if nat_beq (code c) b'+'
    then positive (unsigned s)
    else positive (unsigned (String.◌∷◌ c s))

unfoldable pub push_word : String → List String → List String
push_word w ws = if w == "" then ws else w ∷ ws

-- The word that a text begins with, and the words behind it.
unfoldable pub words : String → String × List String
unfolding is_space push_word
words String.[] = ("", [])
words (String.◌∷◌ c s) =
    let (w, ws) = words s in
    if is_space (code c) then ("", push_word w ws) else (String.◌∷◌ c w, ws)

-- strings.Fields
unfoldable pub fields : String → List String
unfolding words push_word
fields s = let (w, ws) = words s in push_word w ws

-- strings.Join(xs, " ")
unfoldable pub join : List String → String
unfolding concat
join [] = ""
join (x ∷ []) = x
join (x ∷ y ∷ rest) = concat x (concat " " (join (y ∷ rest)))

fields_splits : fields "  openid  email " ≡ "openid" ∷ "email" ∷ []
unfolding fields
fields_splits = refl

trim_space_inner : trim_space "  a b " ≡ "a b"
unfolding trim_space
trim_space_inner = refl

equal_fold_case : equal_fold "OpenID" "openid" ≡ true
unfolding equal_fold
equal_fold_case = refl

itoa_three : itoa 307 ≡ "307"
unfolding itoa
itoa_three = refl

atoi_signed : atoi "-12" ≡ some (negsuc 11)
unfolding atoi
atoi_signed = refl

atoi_letters : atoi "1x" ≡ none
unfolding atoi
atoi_letters = refl
