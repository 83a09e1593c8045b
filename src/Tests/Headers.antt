-- ===== src/Tests/Headers.antt =====
-- The theorem on the content policy, in an environment with a list of script sources.
use af_auth.Base.{
  String, Lacks, ◌≡◌, refl, Option, none, some, [], ◌∷◌, ◌===◌, ◌+++◌, if◌then◌else◌, ◌⊎◌, split,
  trim, ℕ,
}
use af_auth.Base.Eff.{Result, ok}
use af_auth.SecurityHeaders.{
  Directives, headers_of, parse_directive, inline_sources, build_permissions_policy_header,
}
use af_auth.SecurityHeaders.Policy.{IsPolicy, Allows, IsForeign, headers_of-IsPolicy}

abbrev variables : String → Option String
variables name =
    if name === "CSP_SCRIPT_SRC" then some "'self', https://cdn.example.com ," else none

abbrev origin : String → Result String
origin url = ok url

sources :
    inline_sources variables origin "http://localhost" "CSP_SCRIPT_SRC" (some "bm9uY2U=")
    ≡ "'self'" ∷ "https://cdn.example.com" ∷ "'nonce-bm9uY2U='" ∷ []
unfolding inline_sources parse_directive split trim
sources = refl

features :
    build_permissions_policy_header (("camera", []) ∷ ("usb", "self" ∷ "https://a.b" ∷ []) ∷ [])
    ≡ "camera=(), usb=(self \"https://a.b\")"
unfolding build_permissions_policy_header
features = refl

headers_of-IsPolicy_example :
    (ds : Directives) × ((headers_of variables origin "http://localhost"
        (ok "bm9uY2U=")).content_security_policy
      ≡ some ds)
    × (((n : String) × Allows (ok "bm9uY2U=") n
          × ((d : ℕ) → IsForeign d → Lacks d n)
          × IsPolicy variables origin "http://localhost" ("'nonce-" +++ n +++ "'") ds)
        ⊎ (((n : String) → Allows (ok "bm9uY2U=") n → ⊥)
            × IsPolicy variables origin "http://localhost" "'unsafe-inline'" ds))
headers_of-IsPolicy_example =
    headers_of-IsPolicy variables origin "http://localhost" (ok "bm9uY2U=") refl
