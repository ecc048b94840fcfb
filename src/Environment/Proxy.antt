-- ===== src/Environment/Proxy.antt =====
-- utils/network/proxyAgent.ts: the hosts that need no proxy, the trusted certificates, and the kind of
-- agent for a request. An environment variable that is not set is `none`.
pub mod Bypass
use databricks_vscode.Prelude.{
  ℕ, Bool, true, false, not, ◌&&◌, ◌||◌, Option, none, some, List, [], ◌∷◌, ◌++◌, Text, codes, same,
  ◌==◌, map, if◌then◌else◌,
}
use databricks_vscode.Sync.{trim_start, trim_end}

-- `a || b` for texts.
abbrev pub or_text : Option Text → Option Text → Option Text
or_text (some (c ∷ s)) later = some (c ∷ s)
or_text _ later = later

abbrev pub or_empty : Option Text → Text
or_empty none = []
or_empty (some s) = s

abbrev pub put_part : ℕ → List Text → List Text
put_part c [] = (c ∷ []) ∷ []
put_part c (part ∷ parts) = (c ∷ part) ∷ parts

-- `split(",")`
unfoldable pub split_commas : Text → List Text
split_commas [] = [] ∷ []
split_commas (c ∷ s) = let rest = split_commas s in if c == b',' then [] ∷ rest else put_part c rest

-- `trim()`
unfoldable pub trim : Text → Text
unfolding trim_start trim_end
trim s = trim_end (trim_start s)

abbrev pub is_nonempty : Text → Bool
is_nonempty [] = false
is_nonempty (c ∷ s) = true

abbrev pub filter : (Text → Bool) → List Text → List Text
filter test [] = []
filter test (s ∷ ss) = let rest = filter test ss in if test s then s ∷ rest else rest

-- `[...new Set(list)]`
unfoldable pub unique : List Text → List Text
unique [] = []
unique (s ∷ ss) = s ∷ filter (λ t. not (same s t)) (unique ss)

-- `mergeNoProxy`, with the setting `http.noProxy` and the two variables.
unfoldable pub merge_no_proxy : List Text → (upper lower : Option Text) → List Text
unfolding split_commas trim unique
merge_no_proxy setting upper lower =
    unique
      (filter is_nonempty (map trim (setting ++ split_commas (or_empty (or_text upper lower)))))

abbrev pub is_empty : Option (List Text) → Bool
is_empty none = true
is_empty (some []) = true
is_empty (some (c ∷ cs)) = false

abbrev pub list_of : Option (List Text) → List Text
list_of none = []
list_of (some cs) = cs

-- A text that is missing or empty is falsy.
abbrev pub truthy : Option Text → List Text
truthy (some (c ∷ s)) = (c ∷ s) ∷ []
truthy _ = []

abbrev pub is_falsy : Option Text → Bool
is_falsy (some (c ∷ s)) = false
is_falsy _ = true

-- `buildCaBundle`; `roots` are `tls.rootCertificates`.
unfoldable pub build_ca_bundle :
    (roots : List Text)
    → (system : Option (List Text)) → (configured extra : Option Text) → Option (List Text)
unfolding unique
build_ca_bundle roots system configured extra =
    if is_empty system && is_falsy configured
    then none
    else some (unique (roots ++ (list_of system ++ (truthy configured ++ truthy extra))))

-- The options that depend on TLS; `none` stands for options that have neither.
pub record TlsOptions : Type 0 where
  pub reject_unauthorized : Bool
  pub ca : Option (List Text)

pub data Agent : Type 0 where
  ca_aware_proxy : (proxy : Text) → Option TlsOptions → TlsOptions → Agent
  http_proxy : (proxy : Text) → Option TlsOptions → Agent
  https_agent http_agent : Option TlsOptions → Agent

-- `getDatabricksHttpAgent`, with what its reads and its resolver have found. An empty address is falsy;
-- `proxy_https` tells whether the proxy is reached by TLS.
abbrev pub choose_agent : (is_https : Bool) → Option Text → Option TlsOptions → TlsOptions → Agent
choose_agent true (some (c ∷ s)) options tls = ca_aware_proxy (c ∷ s) options tls
choose_agent false (some (c ∷ s)) options tls = http_proxy (c ∷ s) options
choose_agent true _ options tls = https_agent options
choose_agent false _ options tls = http_agent options

abbrev pub has_tls : Option Text → Bool → Bool
has_tls none proxy_https = false
has_tls (some proxy) proxy_https = proxy_https

unfoldable pub get_http_agent :
    (is_https : Bool)
    → (proxy_url : Option Text) → (proxy_https strict_ssl : Bool) → (ca : Option (List Text))
    → Agent
get_http_agent is_https proxy_url proxy_https strict_ssl ca =
    let tls : TlsOptions = record { reject_unauthorized = strict_ssl; ca = ca } in
    choose_agent is_https proxy_url
      (if is_https || has_tls proxy_url proxy_https then some tls else none) tls
