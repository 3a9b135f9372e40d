-- ===== src/Text.antt =====
-- Go's strings.TrimSpace.
use myfipay.Base.{
  ℕ, zero, suc, ◌%◌, ◌≡◌, refl, String, List, [], ◌∷◌, Option, none, some, Bool, true, false, ◌&&◌,
  ◌||◌, code, leb, ◌==◌, nat_eq, string_eq, if◌then◌else◌,
}
use Prim.Native.String.{◌++◌ as concat, len}

-- unicode.IsSpace
unfoldable pub is_space : ℕ → Bool
is_space c =
    leb 9 c && leb c 13
    || c == 0x20
    || c == 0x85
    || c == 0xa0
    || c == 0x1680
    || leb 0x2000 c && leb c 0x200a
    || c == 0x2028
    || c == 0x2029
    || c == 0x202f
    || c == 0x205f
    || c == 0x3000

unfoldable pub trim_left : String → String
unfolding is_space
trim_left String.[] = ""
trim_left (String.◌∷◌ c s) =
    let rest = trim_left s in if is_space (code c) then rest else String.◌∷◌ c s

unfoldable pub trim_right : String → String
unfolding is_space
trim_right String.[] = ""
trim_right (String.◌∷◌ c s) =
    let rest = trim_right s in if rest == "" && is_space (code c) then "" else String.◌∷◌ c rest

unfoldable pub trim_space : String → String
unfolding trim_left trim_right
trim_space s = trim_right (trim_left s)

-- strings.Trim(s, "-")
unfoldable pub trim_dashes_left : String → String
trim_dashes_left String.[] = ""
trim_dashes_left (String.◌∷◌ c s) =
    let rest = trim_dashes_left s in if code c == b'-' then rest else String.◌∷◌ c s

unfoldable pub trim_dashes_right : String → String
trim_dashes_right String.[] = ""
trim_dashes_right (String.◌∷◌ c s) =
    let rest = trim_dashes_right s in if rest == "" && code c == b'-' then "" else String.◌∷◌ c rest

unfoldable pub trim_dashes : String → String
unfolding trim_dashes_left trim_dashes_right
trim_dashes s = trim_dashes_right (trim_dashes_left s)

-- strings.HasPrefix(s, prefix)
unfoldable pub has_prefix : String → String → Bool
has_prefix s String.[] = true
has_prefix String.[] (String.◌∷◌ d p) = false
has_prefix (String.◌∷◌ c s) (String.◌∷◌ d p) = code c == code d && has_prefix s p

-- strings.TrimPrefix(s, prefix) where strings.HasPrefix(s, prefix) holds.
unfoldable pub after_prefix : String → String → Option String
after_prefix s String.[] = some s
after_prefix String.[] (String.◌∷◌ d p) = none
after_prefix (String.◌∷◌ c s) (String.◌∷◌ d p) =
    let rest = after_prefix s p in if code c == code d then rest else none

-- strings.Split(s, ","): the part up to the first comma is being read.
abbrev onto_first : String → List String → List String
onto_first c [] = c ∷ []
onto_first c (part ∷ parts) = concat c part ∷ parts

unfoldable pub split_commas : String → List String
split_commas String.[] = "" ∷ []
split_commas (String.◌∷◌ c s) =
    let rest = split_commas s in
    if code c == b',' then "" ∷ rest else onto_first (String.◌∷◌ c "") rest

-- strings.ReplaceAll(s, " ", "-")
unfoldable pub spaces_to_dashes : String → String
spaces_to_dashes String.[] = ""
spaces_to_dashes (String.◌∷◌ c s) =
    let rest = spaces_to_dashes s in
    if code c == b' ' then String.◌∷◌ "-" rest else String.◌∷◌ c rest

-- strings.Contains(s, "/")
unfoldable pub has_slash : String → Bool
has_slash String.[] = false
has_slash (String.◌∷◌ c s) = code c == b'/' || has_slash s

-- strings.TrimRight(s, "/")
unfoldable pub trim_slashes_right : String → String
trim_slashes_right String.[] = ""
trim_slashes_right (String.◌∷◌ c s) =
    let rest = trim_slashes_right s in
    if rest == "" && code c == b'/' then "" else String.◌∷◌ c rest

-- The character of a text at an index, as a text.
unfoldable pub char_at : String → ℕ → String
char_at String.[] i = ""
char_at (String.◌∷◌ c s) zero = String.◌∷◌ c ""
char_at (String.◌∷◌ c s) (suc i) = char_at s i

-- Characters of a text, each picked by a random byte.
unfoldable pub random_text : String → (ℕ → ℕ) → ℕ → ℕ → String
unfolding char_at
random_text charset draw j zero = ""
random_text charset draw j (suc n) =
    let rest = random_text charset draw (suc j) n in
    concat (char_at charset (draw j % len charset)) rest

unfoldable pub take_chars : ℕ → String → String
take_chars zero s = ""
take_chars (suc n) String.[] = ""
take_chars (suc n) (String.◌∷◌ c s) = let rest = take_chars n s in String.◌∷◌ c rest

-- s[:8]
unfoldable pub first_eight : String → String
unfolding take_chars
first_eight s = take_chars 8 s

trims : trim_space "  077 1 \n" ≡ "077 1"
unfolding trim_space
trims = refl

splits : split_commas "a, b,,c" ≡ "a" ∷ " b" ∷ "" ∷ "c" ∷ []
unfolding split_commas
splits = refl
