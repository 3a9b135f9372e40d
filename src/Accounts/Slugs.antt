-- ===== src/Accounts/Slugs.antt =====
-- What a slug is made of (slugify of api/internal/handlers/auth.go).
use myfipay.Base.{
  ◌≡◌, refl, String, Bool, true, false, not, ◌&&◌, ◌||◌, code, if◌then◌else◌, if-cases, ◌==◌,
  nat_eq, string_eq, arith,
}
use myfipay.Text.{trim_dashes, trim_dashes_left, trim_dashes_right}
use myfipay.Accounts.{AccountLibrary, is_slug_code, slug_runes, slugify}

-- Every character is a small letter, a digit or a dash.
abbrev pub all_safe : String → Bool
all_safe String.[] = true
all_safe (String.◌∷◌ c s) = (is_slug_code (code c) || code c == b'-') && all_safe s

abbrev pub starts_dash : String → Bool
starts_dash String.[] = false
starts_dash (String.◌∷◌ c s) = code c == b'-'

abbrev pub ends_dash : String → Bool
ends_dash String.[] = false
ends_dash (String.◌∷◌ c s) = if s == "" then code c == b'-' else ends_dash s

-- A text for the path of a URL: no space, no letter to escape, no dash at an end.
unfoldable pub is_slug : String → Bool
is_slug s = all_safe s && not (starts_dash s) && not (ends_dash s)

slug_runes-all_safe : (s : String) → all_safe (slug_runes s) ≡ true
unfolding slug_runes
slug_runes-all_safe String.[] = refl
slug_runes-all_safe (String.◌∷◌ c s) = ground (arith, slug_runes-all_safe s)

trim_left-all_safe : (s : String) → all_safe s ≡ true → all_safe (trim_dashes_left s) ≡ true
unfolding trim_dashes_left
trim_left-all_safe String.[] h = refl
trim_left-all_safe (String.◌∷◌ c s) h = ground (arith, trim_left-all_safe s)

keep : (a b b' : Bool) → a && b ≡ true → (b ≡ true → b' ≡ true) → a && b' ≡ true
keep true true b' h g = g refl
keep true false b' h g = cc
keep false b b' h g = cc

last : (a b d : Bool) → a && b ≡ false → d ≡ false → (if a then b else d) ≡ false
last true b d e h = e
last false b d e h = h

trim_right-all_safe : (s : String) → all_safe s ≡ true → all_safe (trim_dashes_right s) ≡ true
unfolding trim_dashes_right
trim_right-all_safe String.[] h = refl
trim_right-all_safe (String.◌∷◌ c s) h =
    if-cases (λ r. all_safe r ≡ true) (trim_dashes_right s == "" && code c == b'-') (λ _. refl)
      (λ _. keep (is_slug_code (code c) || code c == b'-') (all_safe s) _ h (trim_right-all_safe s))

trim_left-starts_dash : (s : String) → starts_dash (trim_dashes_left s) ≡ false
unfolding trim_dashes_left
trim_left-starts_dash String.[] = refl
trim_left-starts_dash (String.◌∷◌ c s) = ground (arith, trim_left-starts_dash s)

trim_right-starts_dash :
    (s : String) → starts_dash s ≡ false → starts_dash (trim_dashes_right s) ≡ false
unfolding trim_dashes_right
trim_right-starts_dash String.[] h = refl
trim_right-starts_dash (String.◌∷◌ c s) h = ground arith

trim_right-ends_dash : (s : String) → ends_dash (trim_dashes_right s) ≡ false
unfolding trim_dashes_right
trim_right-ends_dash String.[] = refl
trim_right-ends_dash (String.◌∷◌ c s) =
    if-cases (λ r. ends_dash r ≡ false) (trim_dashes_right s == "" && code c == b'-') (λ _. refl)
      (λ e. last (trim_dashes_right s == "") (code c == b'-') _ e (trim_right-ends_dash s))

-- Whatever the name, with any lower-casing, its slug has only small letters, digits and dashes, and no
-- dash at an end.
pub slugify-is_slug : (lib : AccountLibrary) (s : String) → is_slug (slugify lib s) ≡ true
unfolding is_slug slugify trim_dashes
slugify-is_slug lib s =
    let runes = slug_runes (lib.to_lower s) in
    let safe =
      trim_right-all_safe (trim_dashes_left runes)
        (trim_left-all_safe runes (slug_runes-all_safe (lib.to_lower s))) in
    let front = trim_right-starts_dash (trim_dashes_left runes) (trim_left-starts_dash runes) in
    let back = trim_right-ends_dash (trim_dashes_left runes) in rw safe (rw front (rw back refl))
