-- ===== src/Process.antt =====
-- The configuration of the server's process: server/cmd/server/main.go. An unset variable of the
-- environment is the empty text; a fatal error ends the process.
use Prim.Native.String.{◌++◌}
use xmiete.Prelude.{String, Option, none, some, ◌==◌, if◌then◌else◌}
use xmiete.Prelude.Int.{ℤ, pos}
use xmiete.Prelude.Results.{Result, good, bad, ◌>>=◌}

-- os.Getenv
abbrev pub Environment : Type 0
Environment = String → String

pub record SmtpConfig : Type 0 where
  pub host : String
  pub port : ℤ
  pub username : String
  pub password : String
  pub from : String

-- `main` up to the connection to the database.
pub record Config : Type 0 where
  pub database_url : String
  pub jwt_secret : String
  pub port : String
  pub webhook_url : String
  pub issuer_url : String

module _ (env : Environment) where
  abbrev pub must_env : String → Result String
  must_env key =
      if env key == "" then bad ("required env var " ++ (key ++ " is not set")) else good (env key)

  abbrev pub env_or_default : String → String → String
  env_or_default key default = if env key == "" then default else env key

  unfoldable pub config : Result Config
  config = do
    dsn ← must_env "DATABASE_URL"
    secret ← must_env "JWT_SECRET"
    good (record {
      database_url = dsn;
      jwt_secret = secret;
      port = env_or_default "PORT" "8080";
      webhook_url = env "WEBHOOK_URL";
      issuer_url = env_or_default "ISSUER_URL" "https://api.xmiete.org";
    })

  -- `atoi` is strconv.Atoi.
  module _ (atoi : String → Option ℤ) where
    abbrev pub port_or : ℤ → Option ℤ → ℤ
    port_or default none = default
    port_or default (some n) = n

    -- `none` is the mailer that sends nothing.
    unfoldable pub build_mailer : Option SmtpConfig
    build_mailer =
        if env "SMTP_HOST" == ""
        then none
        else some (record {
          host = env "SMTP_HOST";
          port = port_or (pos 587) (if env "SMTP_PORT" == "" then none else atoi (env "SMTP_PORT"));
          username = env "SMTP_USERNAME";
          password = env "SMTP_PASSWORD";
          from = env_or_default "SMTP_FROM" "noreply@xmiete.org";
        })
