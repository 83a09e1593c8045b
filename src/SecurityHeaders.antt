-- ===== src/SecurityHeaders.antt =====
-- src/middleware/security-headers.ts and src/middleware/csp-nonce.ts: the headers of every response.
-- `process.env`, the parsing of a URL and helmet, which sets the headers, are parameters; warnings
-- only print.
pub mod Policy
use Prim.Native.Char.{code}
use af_auth.Base.{
  ℕ, String, Bool, true, false, not, ◌&&◌, ◌||◌, Option, none, some, List, [], ◌∷◌, ◌++◌, map, keep,
  ◌===◌, ◌==◌, ◌+++◌, leb, length, if◌then◌else◌, truthy, or_else, split, trim, parse_int,
  to_upper_case, to_lower_case, lower_letter,
}
use af_auth.Base.Int.{ℤ}
use af_auth.Base.Eff.{Result, ok, err}

-- A directive with its sources; the keys are those of the source.
abbrev pub Directives : Type 0
Directives = List (String × List String)

-- `SecurityHeadersConfig`. `hsts_max_age` is `none` for NaN.
pub record SecurityHeadersConfig : Type 0 where
  pub csp_enabled : Bool
  pub directives : Directives
  pub upgrade_insecure_requests : Bool
  pub hsts_enabled : Bool
  pub hsts_max_age : Option ℤ
  pub include_sub_domains : Bool
  pub preload : Bool
  pub x_frame_options : String
  pub x_content_type_options : Bool
  pub referrer_policy : String
  pub permissions_policy : Directives

-- What helmet is given for one response, and the header that is set beside it.
pub record Headers : Type 0 where
  pub content_security_policy : Option Directives
  pub upgrade_insecure_requests : Bool
  pub strict_transport_security : Option (Option ℤ × Bool × Bool)
  pub frame_action : String
  pub referrer_policy : String
  pub x_content_type_options : Bool
  pub permissions_policy : String

-- The source that allows inline scripts and styles: those with the nonce, or all.
abbrev pub inline_source : Option String → String
inline_source nonce =
    if truthy nonce then "'nonce-" +++ or_else nonce "" +++ "'" else "'unsafe-inline'"

abbrev default_if_empty : List String → List String → List String
default_if_empty [] default_value = default_value
default_if_empty (v ∷ vs) default_value = v ∷ vs

-- `allowlist.map(...).join(' ')`
abbrev quoted : List String → String
quoted [] = ""
quoted (v ∷ []) = if v === "self" then "self" else "\"" +++ v +++ "\""
quoted (v ∷ w ∷ vs) =
    (if v === "self" then "self" else "\"" +++ v +++ "\"") +++ " " +++ quoted (w ∷ vs)

abbrev feature_text : String × List String → String
feature_text (feature, []) = feature +++ "=()"
feature_text (feature, v ∷ vs) = feature +++ "=(" +++ quoted (v ∷ vs) +++ ")"

-- `buildPermissionsPolicyHeader`
unfoldable pub build_permissions_policy_header : Directives → String
build_permissions_policy_header [] = ""
build_permissions_policy_header (p ∷ []) = feature_text p
build_permissions_policy_header (p ∷ q ∷ ps) =
    feature_text p +++ ", " +++ build_permissions_policy_header (q ∷ ps)

-- `/^[A-Za-z0-9+/]+=*$/`
abbrev pub is_base64_char : ℕ → Bool
is_base64_char c =
    (leb 65 c && leb c 90)
    || (leb 97 c && leb c 122)
    || (leb 48 c && leb c 57)
    || c == b'+'
    || c == b'/'

abbrev pub is_padding : String → Bool
is_padding String.[] = true
is_padding (String.◌∷◌ c s) = code c == b'=' && is_padding s

abbrev pub ends_as_nonce : String → Bool
ends_as_nonce String.[] = true
ends_as_nonce (String.◌∷◌ c s) =
    (is_base64_char (code c) && ends_as_nonce s) || (code c == b'=' && is_padding s)

unfoldable pub is_nonce : String → Bool
is_nonce String.[] = false
is_nonce (String.◌∷◌ c s) = is_base64_char (code c) && ends_as_nonce s

-- The nonce of a response, unless it has another form.
abbrev pub accepted_nonce : Option String → Option String
accepted_nonce none = none
accepted_nonce (some n) = if truthy (some n) && not (is_nonce n) then none else some n

-- `key.replace(/[A-Z]/g, letter => '-' + letter.toLowerCase())`
unfoldable pub kebab_case : String → String
kebab_case String.[] = String.[]
kebab_case (String.◌∷◌ c s) =
    let rest = kebab_case s in
    if leb 65 (code c) && leb (code c) 90
    then String.◌∷◌ "-" (String.◌∷◌ (lower_letter c) rest)
    else String.◌∷◌ c rest

-- A directive without sources is skipped.
unfoldable pub csp_directives : Directives → Directives
csp_directives [] = []
csp_directives ((key, []) ∷ rest) = csp_directives rest
csp_directives ((key, v ∷ vs) ∷ rest) = (kebab_case key, v ∷ vs) ∷ csp_directives rest

-- `generateNonce` and `cspNonceMiddleware`: the draw of random bytes, in base64, may throw.
unfoldable pub csp_nonce : Result String → Option String
csp_nonce (ok nonce) = if truthy (some nonce) then some nonce else none
csp_nonce (err e) = none

module _ (env : String → Option String) (origin : String → Result String)
    (callback_url : String) where
  abbrev pub is_set_to : String → String → Bool
  is_set_to key value = elim (env key) [ none ↦ false | some v ↦ v === value ]

  -- `parseDirective`
  unfoldable pub parse_directive : String → List String → List String
  parse_directive env_var default_value = elim (env env_var) [
    | none ↦ default_value
    | some value ↦
        if truthy (some value)
        then default_if_empty (keep (λ v. truthy (some v)) (map trim (split b',' value)))
            default_value
        else default_value
  ]

  -- `scriptSrc` and `styleSrc`
  unfoldable pub inline_sources : String → Option String → List String
  inline_sources env_var nonce =
      if truthy (env env_var)
      then parse_directive env_var [] ++ inline_source nonce ∷ []
      else "'self'" ∷ inline_source nonce ∷ []

  abbrev origin_or_local : Result String → String
  origin_or_local (ok o) = o
  origin_or_local (err e) = "http://localhost:3000"

  abbrev pub github_domain : String
  github_domain = origin_or_local (origin (or_else (env "GITHUB_CALLBACK_URL") callback_url))

  abbrev frame_options : String → String
  frame_options value = if value === "DENY" || value === "SAMEORIGIN" then value else "DENY"

  -- `getSecurityHeadersConfig`
  abbrev pub get_security_headers_config : Option String → SecurityHeadersConfig
  get_security_headers_config nonce = record {
    csp_enabled = not (is_set_to "CSP_ENABLED" "false");
    directives =
        ("defaultSrc", parse_directive "CSP_DEFAULT_SRC" ("'self'" ∷ []))
        ∷ ("scriptSrc", inline_sources "CSP_SCRIPT_SRC" nonce)
        ∷ ("styleSrc", inline_sources "CSP_STYLE_SRC" nonce)
        ∷ ("imgSrc", parse_directive "CSP_IMG_SRC" ("'self'" ∷ "data:" ∷ "https:" ∷ []))
        ∷ (
          "connectSrc",
          parse_directive "CSP_CONNECT_SRC" ("'self'" ∷ github_domain ∷ "https://github.com" ∷ []),
        )
        ∷ ("fontSrc", parse_directive "CSP_FONT_SRC" ("'self'" ∷ "data:" ∷ []))
        ∷ ("objectSrc", parse_directive "CSP_OBJECT_SRC" ("'none'" ∷ []))
        ∷ ("mediaSrc", parse_directive "CSP_MEDIA_SRC" ("'self'" ∷ []))
        ∷ ("frameSrc", parse_directive "CSP_FRAME_SRC" ("'none'" ∷ []))
        ∷ ("formAction", parse_directive "CSP_FORM_ACTION" ("'self'" ∷ "https://github.com" ∷ []))
        ∷ ("frameAncestors", parse_directive "CSP_FRAME_ANCESTORS" ("'none'" ∷ []))
        ∷ ("baseUri", parse_directive "CSP_BASE_URI" ("'self'" ∷ []))
        ∷ [];
    upgrade_insecure_requests =
        not (is_set_to "CSP_UPGRADE_INSECURE_REQUESTS" "false")
        && is_set_to "NODE_ENV" "production";
    hsts_enabled = not (is_set_to "HSTS_ENABLED" "false") && is_set_to "NODE_ENV" "production";
    hsts_max_age = parse_int (or_else (env "HSTS_MAX_AGE") "31536000");
    include_sub_domains = not (is_set_to "HSTS_INCLUDE_SUBDOMAINS" "false");
    preload = is_set_to "HSTS_PRELOAD" "true";
    x_frame_options = frame_options (to_upper_case (or_else (env "X_FRAME_OPTIONS") "DENY"));
    x_content_type_options = not (is_set_to "X_CONTENT_TYPE_OPTIONS" "false");
    referrer_policy = or_else (env "REFERRER_POLICY") "strict-origin-when-cross-origin";
    permissions_policy =
        ("camera", parse_directive "PERMISSIONS_POLICY_CAMERA" [])
        ∷ ("microphone", parse_directive "PERMISSIONS_POLICY_MICROPHONE" [])
        ∷ ("geolocation", parse_directive "PERMISSIONS_POLICY_GEOLOCATION" [])
        ∷ ("payment", parse_directive "PERMISSIONS_POLICY_PAYMENT" [])
        ∷ ("usb", parse_directive "PERMISSIONS_POLICY_USB" [])
        ∷ [];
  }

  -- The middleware that `createSecurityHeadersMiddleware` returns, up to helmet. All but the content
  -- policy comes from the settings that were read without a nonce.
  unfoldable pub security_headers : Option String → Headers
  security_headers nonce =
      let static_config = get_security_headers_config none in
      let security_config = get_security_headers_config (accepted_nonce nonce) in
      record {
        content_security_policy =
            if security_config.csp_enabled
            then some (csp_directives security_config.directives)
            else none;
        upgrade_insecure_requests = security_config.upgrade_insecure_requests;
        strict_transport_security =
            if static_config.hsts_enabled
            then some (
              static_config.hsts_max_age, static_config.include_sub_domains, static_config.preload,
            )
            else none;
        frame_action = to_lower_case static_config.x_frame_options;
        referrer_policy = static_config.referrer_policy;
        x_content_type_options = static_config.x_content_type_options;
        permissions_policy = build_permissions_policy_header static_config.permissions_policy;
      }

  -- Both middlewares, in the order of src/server.ts.
  abbrev pub headers_of : Result String → Headers
  headers_of drawn = security_headers (csp_nonce drawn)
