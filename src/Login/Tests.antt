-- ===== src/Login/Tests.antt =====
-- Sign-ins at concrete inputs, on a Redis in memory.
use myfipay.Base.{
  ℕ, ◌≤◌, ◌≡◌, refl, String, List, [], ◌∷◌, Option, none, some, Bool, true, false, arith, ◌==◌,
  string_eq, ==-refl, coalesce, ap, sym, ◌∙◌, nat_beq,
}
use myfipay.Text.{trim_space}
use myfipay.Http.{respond}
use myfipay.Db.{User}
use myfipay.Db.Sample.{no_rows}
use myfipay.Cache.Memory.{memory, memory-IsCounting, Store}
use myfipay.Accounts.{AccountLibrary, RegisterForm, normal_email, register}
use myfipay.Accounts.Reviews.{approve_kyc}
use myfipay.Login.{is_locked, login}
use myfipay.Login.Lockout.{Attempt, guesses, guesses-capped}
use myfipay.Login.Access.{register-approve-login}

abbrev lib : AccountLibrary
lib = record {
  to_lower = λ s. s;
  hash = λ salt p. some p;
  matches = λ h p. h == p;
  decimal = λ n. "2";
  read_rate = λ s. some "";
}

abbrev up : ℕ → Bool
up _ = true

-- The user is found, but the time of the sign-in is not written; or no statement goes through.
abbrev half : ℕ → Bool
half n = nat_beq n 0

abbrev down : ℕ → Bool
down _ = false

abbrev token : User → Option String
token u = some "token"

abbrev empty : Store
empty = λ k. none

-- Guesses for accounts that do not exist.
abbrev guess : (ℕ → Bool) → ℕ → String → Attempt
guess ok now email = (ok, now, "1.2.3.4", some (record { email = email; password = "secret" }))

abbrev burst : List Attempt
burst = guess up 100 "a@b.c" ∷ guess down 101 "d@b.c" ∷ guess half 999 "a@b.c" ∷ []

all_wrong : guesses memory lib token "1.2.3.4" burst (empty, no_rows) ≡ 3
unfolding guesses trim_space
all_wrong = refl

guesses-capped_example : guesses memory lib token "1.2.3.4" burst (empty, no_rows) ≤ 20
guesses-capped_example =
    guesses-capped memory memory-IsCounting lib token 100 "1.2.3.4" burst empty no_rows
      (λ t h. refl)
      (omega arith, omega arith, (omega arith, omega arith, (omega arith, omega arith, tt)))

abbrev form : RegisterForm
form = record {
  name = "Ann";
  business_name = "Cafe";
  email = " ann@example.com ";
  phone = "256700000001";
  district = "Kampala";
  password = "longenough";
  agent_code = "";
}

created : (register lib up "salt" "t1" "u1" (some form) no_rows).0.status ≡ 201
unfolding register trim_space
created = refl

hashes_match :
    (password h : String) → lib.hash "salt" password ≡ some h → lib.matches h password ≡ true
hashes_match password h e = ap (λ o. coalesce o h == password) (sym e) ∙ ==-refl password

spelled : normal_email lib "ann@example.com" ≡ normal_email lib form.email
unfolding trim_space
spelled = refl

open' : is_locked memory lib token 100 "1.2.3.4" (normal_email lib form.email) empty ≡ false
unfolding is_locked
open' = refl

register-approve-login_example :
    (t : String) × ((login memory lib token up 100 "1.2.3.4"
        (some (record { email = "ann@example.com"; password = "longenough" }))
        (empty, (approve_kyc up "t1" (register lib up "salt" "t1" "u1" (some form) no_rows).1).1)).0
      ≡ respond 200 t)
register-approve-login_example =
    register-approve-login memory lib token up up up "salt" "t1" "u1" form no_rows 100 "1.2.3.4"
      (record { email = "ann@example.com"; password = "longenough" }) empty hashes_match
      (λ u. ("token", refl)) created refl refl refl spelled refl open'
