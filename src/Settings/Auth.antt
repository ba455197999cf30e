-- ===== src/Settings/Auth.antt =====
-- The settings of authentication (`AuthConfig` of internal/http/http_server.go) and the check of a
-- request's credentials.
use pgscv.Base.{
  ◌≡◌, ◌↔◌, String, Bool, true, false, not, ◌&&◌, ◌||◌, Option, none, some, arith, ◌==◌, string_eq,
  if◌then◌else◌,
}
use pgscv.Base.Result.{Result, ok, err}

-- `AuthConfig`
pub record AuthConfig : Type 0 where
  pub enable_auth : Bool
  pub username : String
  pub password : String
  pub enable_tls : Bool
  pub keyfile : String
  pub certfile : String

abbrev pub no_auth : AuthConfig
no_auth = record {
  enable_auth = false;
  username = "";
  password = "";
  enable_tls = false;
  keyfile = "";
  certfile = "";
}

pub data AuthError : Type 0 where
  auth_invalid : AuthError
  tls_invalid : AuthError

-- `AuthConfig.Validate`: whether to ask for credentials, and whether to use TLS.
unfoldable pub validate_auth : AuthConfig → Result AuthError (Bool × Bool)
validate_auth c =
    if c.username == "" && not (c.password == "") || not (c.username == "") && c.password == ""
    then err auth_invalid
    else if c.keyfile == "" && not (c.certfile == "") || not (c.keyfile == "") && c.certfile == ""
    then err tls_invalid
    else ok (
      if not (c.username == "") && not (c.password == "") then true else false,
      if not (c.keyfile == "") && not (c.certfile == "") then true else false,
    )

-- `basicAuth`: the request goes on to the handler (true) or is refused with the status 401.
-- The credentials are what `r.BasicAuth()` reads, none where it is not ok.
unfoldable pub basic_auth : AuthConfig → Option (String × String) → Bool
basic_auth cfg none = false
basic_auth cfg (some (username, password)) = username == cfg.username && password == cfg.password

-- `NewServer`: `/metrics` and `/flush-services-config` ask for credentials where they are enabled.
unfoldable pub admits : AuthConfig → Option (String × String) → Bool
unfolding basic_auth
admits cfg credentials = if cfg.enable_auth then basic_auth cfg credentials else true

abbrev pub with_flags : AuthConfig → Bool × Bool → AuthConfig
with_flags c (auth, tls) = record c { enable_auth = auth; enable_tls = tls }

-- Settings that are valid and name a user or a password, with the flags that validation gives, let a
-- request through exactly when it carries this user and this password.
pub admits-validate_auth :
    (c : AuthConfig) (flags : Bool × Bool) (credentials : Option (String × String))
    → validate_auth c ≡ ok flags
    → (not (c.username == "") || not (c.password == "")) ≡ true
    → (admits (with_flags c flags) credentials ≡ true)
      ↔ (credentials ≡ some (c.username, c.password))
unfolding validate_auth admits basic_auth
admits-validate_auth c flags none valid named = ground arith
admits-validate_auth c flags (some (u, p)) valid named = ground arith
