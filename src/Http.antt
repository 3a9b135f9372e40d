-- ===== src/Http.antt =====
-- api/internal/handlers/handlers.go: the JSON envelope of every answer.
use myfipay.Base.{ℕ, String, Bool, false, ltb}

pub data Body {ℓ} (A : Type ℓ) : Type ℓ where
  content : A → Body A
  error : String → String → Body A

pub record Reply {ℓ} (A : Type ℓ) : Type ℓ where
  pub status : ℕ
  pub success : Bool
  pub body : Body A

module _ {ℓ} {A : Type ℓ} where
  abbrev pub respond : ℕ → A → Reply A
  respond status data' = record { status = status; success = ltb status 400; body = content data' }

  abbrev pub respond_error : ℕ → String → String → Reply A
  respond_error status code message = record {
    status = status;
    success = false;
    body = error code message;
  }
