-- ===== src/Config.antt =====
-- The configuration, read from the environment (api/internal/config/config.go). A variable that is not
-- set is the empty text; `none` is the end of the program.
use myfipay.Base.{
  String, List, [], ◌∷◌, Option, none, some, coalesce, if◌then◌else◌, ◌==◌, string_eq,
}
use myfipay.Base.Int.{ℤ, pos}
use Prim.Native.String.{◌++◌ as concat}
use myfipay.Text.{trim_space, split_commas}

pub record Config : Type 0 where
  pub app_env : String
  pub port : String
  pub app_secret : String
  pub database_url : String
  pub redis_url : String
  pub redis_password : String
  pub jwt_secret : String
  pub jwt_expiry_hours : ℤ
  pub zengapay_api_url : String
  pub zengapay_api_token : String
  pub zengapay_webhook_secret : String
  pub cors_origins : List String
  pub zengapay_webhook_ips : String
  pub wg_server_public_key : String
  pub wg_endpoint_host : String
  pub wg_endpoint_port : String

unfoldable pub trim_parts : List String → List String
unfolding trim_space
trim_parts [] = []
trim_parts (part ∷ parts) =
    let rest = trim_parts parts in if trim_space part == "" then rest else trim_space part ∷ rest

unfoldable pub split_list : String → List String
unfolding trim_parts split_commas
split_list s = trim_parts (split_commas s)

abbrev pub get_env : (String → String) → String → String → String
get_env env key fallback = if env key == "" then fallback else env key

unfoldable pub must_env : (String → String) → String → Option String
must_env env key = if env key == "" then none else some (env key)

unfoldable pub build_dsn : (String → String) → String
build_dsn env =
    let host = get_env env "POSTGRES_HOST" "localhost" in
    let port = get_env env "POSTGRES_PORT" "5432" in
    let user = get_env env "POSTGRES_USER" "myfibase" in
    let pass = get_env env "POSTGRES_PASSWORD" "" in
    let db = get_env env "POSTGRES_DB" "myfibase" in
    concat "postgres://" (
      concat user (
        concat ":" (
          concat pass (
            concat "@" (
              concat host
                (concat ":" (concat port (concat "/" (concat db "?sslmode=disable")))))))))

-- `atoi` is strconv.Atoi, and `env` the environment after the .env file was read.
abbrev pub config_of : (String → Option ℤ) → (String → String) → Option String → Option Config
config_of atoi env none = none
config_of atoi env (some app_secret) = some (record {
  app_env = get_env env "APP_ENV" "development";
  port = get_env env "APP_PORT" "8080";
  app_secret = app_secret;
  database_url = build_dsn env;
  redis_url = get_env env "REDIS_URL" "redis://localhost:6379";
  redis_password = get_env env "REDIS_PASSWORD" "";
  jwt_secret = get_env env "JWT_SECRET" app_secret;
  jwt_expiry_hours =
      let v = get_env env "JWT_EXPIRY_HOURS" "" in
      if v == "" then pos 24 else coalesce (atoi v) (pos 24);
  zengapay_api_url = get_env env "ZENGAPAY_API_URL" "https://api.zengapay.com";
  zengapay_api_token = get_env env "ZENGAPAY_API_TOKEN" "";
  zengapay_webhook_secret = get_env env "ZENGAPAY_WEBHOOK_SECRET" "";
  cors_origins = split_list (get_env env "CORS_ALLOWED_ORIGINS" "");
  zengapay_webhook_ips = get_env env "ZENGAPAY_WEBHOOK_IPS" "";
  wg_server_public_key = get_env env "WG_SERVER_PUBLIC_KEY" "";
  wg_endpoint_host = get_env env "WG_ENDPOINT_HOST" "170.64.177.20";
  wg_endpoint_port = get_env env "WG_ENDPOINT_PORT" "51820";
})

unfoldable pub load : (String → Option ℤ) → (String → String) → Option Config
unfolding must_env build_dsn split_list
load atoi env = config_of atoi env (must_env env "APP_SECRET")
