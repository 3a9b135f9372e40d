-- ===== src/Accounts/Tests.antt =====
-- Registrations at concrete inputs.
use myfipay.Base.{ℕ, ◌≡◌, refl, some, Bool, true, if◌then◌else◌, ◌==◌, string_eq}
use myfipay.Db.Sample.{no_rows}
use myfipay.Accounts.{AccountLibrary, RegisterForm, slugify, register}
use myfipay.Accounts.Slugs.{is_slug, slugify-is_slug}
use myfipay.Accounts.Atomic.{RegisterOutcome, register-Outcome}
use myfipay.Text.{trim_space}

abbrev lib : AccountLibrary
lib = record {
  to_lower = λ s. if s == "Café One" then "café one" else s;
  hash = λ salt p. some p;
  matches = λ h p. h == p;
  decimal = λ n. "2";
  read_rate = λ s. some "";
}

abbrev form : RegisterForm
form = record {
  name = "Ann";
  business_name = "Café One";
  email = " ann@example.com ";
  phone = "256700000001";
  district = "Kampala";
  password = "longenough";
  agent_code = "";
}

abbrev up : ℕ → Bool
up _ = true

slug : slugify lib "Café One" ≡ "caf-one"
unfolding slugify
slug = refl

slugify-is_slug_example : is_slug (slugify lib "Café One") ≡ true
slugify-is_slug_example = slugify-is_slug lib "Café One"

-- The registration goes through, and not a second time.
created : (register lib up "salt" "t1" "u1" (some form) no_rows).0.status ≡ 201
unfolding register trim_space
created = refl

taken :
    (register lib up "salt" "t2" "u2"
      (some form)
      (register lib up "salt" "t1" "u1" (some form) no_rows).1).0.status
    ≡ 409
unfolding register trim_space
taken = refl

register-Outcome_example :
    RegisterOutcome lib "salt" "t1" form no_rows
      (register lib up "salt" "t1" "u1" (some form) no_rows)
register-Outcome_example = register-Outcome lib up "salt" "t1" "u1" form no_rows
