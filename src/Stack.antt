-- ===== src/Stack.antt =====
-- scripts/lib/stack-ports.mjs: the host ports of a stack, the URLs built on them, and the
-- environment that a worker exports.
pub mod Disjoint
pub mod Environment
mod Examples
use mathlib.Core.List.{foldl}
use tflw_tests.Prelude.{
  ℕ, ◌+◌, Option, none, some, List, [], ◌∷◌, ◌++◌, map, if◌then◌else◌, ltb, Text, codes, Map,
  lookup, insert, decimal,
}

pub data Service : Type 0 where
  api inventory web web_admin tls mtls vuln_tls proxy : Service

abbrev pub services : List Service
services = api ∷ inventory ∷ web ∷ web_admin ∷ tls ∷ mtls ∷ vuln_tls ∷ proxy ∷ []

abbrev pub name : Service → Text
name api = codes "API"
name inventory = codes "INVENTORY"
name web = codes "WEB"
name web_admin = codes "WEB_ADMIN"
name tls = codes "TLS"
name mtls = codes "MTLS"
name vuln_tls = codes "VULN_TLS"
name proxy = codes "PROXY"

abbrev pub port_default : Service → ℕ
port_default api = 4001
port_default inventory = 4002
port_default web = 8090
port_default web_admin = 8091
port_default tls = 8443
port_default mtls = 8444
port_default vuln_tls = 8445
port_default proxy = 8888

-- What `Number(raw)` may be: an integer, or another number (a fraction, an infinity, NaN).
pub data Number : Type 0 where
  natural : ℕ → Number
  below_zero : ℕ → Number
  no_integer : Number

pub data Offset : Type 0 where
  ok : ℕ → Offset
  thrown : Text → Offset

-- `Number` of the language, on the texts that are no plain decimal digits, is a parameter.
module _ (number : Text → Number) where
  check_offset : Text → Number → Offset
  check_offset raw (natural n) = if ltb 50000 n then thrown raw else ok n
  check_offset raw (below_zero n) = thrown raw
  check_offset raw no_integer = thrown raw

  raw_offset : Option Text → Offset
  raw_offset none = ok 0
  raw_offset (some []) = ok 0
  raw_offset (some (c ∷ s)) = check_offset (c ∷ s) (number (c ∷ s))

  pub stack_offset : Map Text → Offset
  unfolding check_offset raw_offset
  stack_offset environ = raw_offset (lookup (codes "TFLW_STACK_OFFSET") environ)

pub port : ℕ → Service → ℕ
port offset s = port_default s + offset

unfoldable pub ports : ℕ → Map ℕ
unfolding port
ports offset = map (λ s. (name s, port offset s)) services

abbrev http : Text → Text
http host = codes "http://" ++ host ++ codes ":"

abbrev https : Text → Text
https host = codes "https://" ++ host ++ codes ":"

abbrev localhost : Text
localhost = codes "localhost"

unfoldable pub urls : ℕ → Map Text
unfolding port
urls offset =
    let at = λ (s : Service). decimal (port offset s) in
    (codes "TFLW_API_ORIGIN", http localhost ++ at api)
    ∷ (codes "TFLW_API_BASE", http localhost ++ at api ++ codes "/v1")
    ∷ (codes "TFLW_IPV6_BASE", http (codes "[::1]") ++ at api ++ codes "/v1")
    ∷ (codes "TFLW_INVENTORY_ORIGIN", http localhost ++ at inventory)
    ∷ (codes "TFLW_INVENTORY_BASE", http localhost ++ at inventory ++ codes "/v1")
    ∷ (codes "TFLW_WEB_BASE", http localhost ++ at web)
    ∷ (codes "TFLW_WEB_ADMIN_BASE", http localhost ++ at web_admin)
    ∷ (codes "TFLW_TLS_ORIGIN", https localhost ++ at tls)
    ∷ (codes "TFLW_TLS_BASE", https localhost ++ at tls ++ codes "/v1")
    ∷ (codes "TFLW_MTLS_ORIGIN", https localhost ++ at mtls)
    ∷ (codes "TFLW_MTLS_BASE", https localhost ++ at mtls ++ codes "/v1")
    ∷ (codes "TFLW_VULN_TLS_ORIGIN", https localhost ++ at vuln_tls)
    ∷ (codes "TFLW_VULN_TLS_BASE", https localhost ++ at vuln_tls ++ codes "/v1")
    ∷ (codes "TFLW_PROXY_URL", http (codes "127.0.0.1") ++ at proxy)
    ∷ []

abbrev set_all : Map Text → Map Text → Map Text
set_all = foldl (λ env (entry : Text × Text). insert entry.0 entry.1 env)

unfoldable pub stack_env : ℕ → Map Text
unfolding ports urls
stack_env offset =
    let env : Map Text = (codes "TFLW_STACK_OFFSET", decimal offset) ∷ [] in
    let named = map (λ (p : Text × ℕ). (codes "TFLW_PORT_" ++ p.0, decimal p.1)) (ports offset) in
    set_all (set_all env named) (urls offset)
