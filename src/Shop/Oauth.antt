-- ===== src/Shop/Oauth.antt =====
-- apiV2/src/oauth/oauth-code.service.ts: the authorization-code grant with PKCE. Codes and refresh
-- tokens are in memory, so a request that fails may have changed them: an answer stands beside the
-- state. URL parsing, the digest, the check of credentials and the users are parameters.
pub mod Single
mod Examples
use tflw_tests.Prelude.{
  ℕ, ◌+◌, Bool, true, false, not, ◌&&◌, ◌||◌, Option, none, some, List, [], ◌∷◌, ltb, leb, ◌==◌,
  if◌then◌else◌, length, is_nil, all, Text, codes, text_eq, includes, Map, lookup, insert, remove,
}
use tflw_tests.Shop.Tables.{bad_request, unauthorized, Attempt, failed, done, and_then, unless}

pub record AuthorizeQuery : Type 0 where
  pub client_id : Option Text
  pub redirect_uri : Option Text
  pub response_type : Option Text
  pub code_challenge_method : Option Text
  pub code_challenge : Option Text
  pub state : Option Text
  pub scope : Option Text

pub record AuthorizeRequest : Type 0 where
  pub client_id : Text
  pub redirect_uri : Text
  pub challenge : Text
  pub state : Text
  pub scope : Option Text

pub record IssuedCode : Type 0 where
  pub client_id : Text
  pub redirect_uri : Text
  pub challenge : Text
  pub user_id : ℕ
  pub scope : Option Text
  pub expires_at : ℕ

pub record IssuedRefresh : Type 0 where
  pub client_id : Text
  pub user_id : ℕ
  pub scope : Option Text

pub record Grants : Type 0 where
  pub issued_codes : Map IssuedCode
  pub refresh_tokens : Map IssuedRefresh

pub record Url : Type 0 where
  pub protocol : Text
  pub hostname : Text

-- What the service has from elsewhere: `new URL`, the digest in base64url, the credentials of a user, and
-- whether a user is there and active.
pub record Provider : Type 0 where
  pub public_client_id : Text
  pub parse_url : Text → Option Url
  pub digest : Text → Text
  pub validate_credentials : Text → Text → Attempt ℕ
  pub is_active : ℕ → Attempt Bool

abbrev pub code_ttl_ms : ℕ
code_ttl_ms = 60000

abbrev pub loopback_hosts : List Text
loopback_hosts = codes "127.0.0.1" ∷ codes "localhost" ∷ codes "[::1]" ∷ []

-- `value ?? ''`
abbrev pub or_empty : Option Text → Text
or_empty none = []
or_empty (some text) = text

-- `value === text` for a value that may be undefined.
abbrev pub is_text : Option Text → Text → Bool
is_text none text = false
is_text (some t) text = text_eq t text

-- `[A-Za-z0-9_-]`
abbrev pub is_base64url : ℕ → Bool
is_base64url c =
    leb 65 c && leb c 90 || leb 97 c && leb c 122 || leb 48 c && leb c 57 || c == 95 || c == 45

abbrev pub is_challenge : Text → Bool
is_challenge text = (length text == 43) && all is_base64url text

unfoldable pub is_loopback : Provider → Text → Bool
is_loopback p uri = elim (p.parse_url uri) [
  | none ↦ false
  | some url ↦ text_eq url.protocol (codes "http:") && includes loopback_hosts url.hostname
]

-- `q.scope ? { scope } : {}`
abbrev pub if_given : Option Text → Option Text
if_given none = none
if_given (some []) = none
if_given (some (c ∷ text)) = some (c ∷ text)

unfoldable pub validate : Provider → AuthorizeQuery → Attempt AuthorizeRequest
unfolding unless is_loopback
validate p q = unless (is_text q.client_id p.public_client_id) bad_request (
    unless (is_loopback p (or_empty q.redirect_uri)) bad_request (
      unless (is_text q.response_type (codes "code")) bad_request (
        unless (is_text q.code_challenge_method (codes "S256")) bad_request (
          unless (is_challenge (or_empty q.code_challenge)) bad_request (
            unless (not (is_nil (or_empty q.state))) bad_request (
              done (record {
                client_id = or_empty q.client_id;
                redirect_uri = or_empty q.redirect_uri;
                challenge = or_empty q.code_challenge;
                state = or_empty q.state;
                scope = if_given q.scope;
              })))))))

pub record AuthorizeForm : Type 0 where
  pub query : AuthorizeQuery
  pub denies : Bool
  pub email : Option Text
  pub password : Option Text

-- Where the browser is sent.
pub data Redirect : Type 0 where
  denied : Text → Text → Redirect
  with_code : Text → Text → Text → Redirect

abbrev pub code_for : ℕ → AuthorizeRequest → ℕ → IssuedCode
code_for now r user_id = record {
  client_id = r.client_id;
  redirect_uri = r.redirect_uri;
  challenge = r.challenge;
  user_id = user_id;
  scope = if_given r.scope;
  expires_at = now + code_ttl_ms;
}

-- The random code is an argument.
unfoldable pub decide : Provider → ℕ → Text → AuthorizeForm → Grants → Attempt (Redirect × Grants)
unfolding validate insert and_then
decide p now code form g = and_then (validate p form.query) λ r.
    if form.denies
    then done (denied r.redirect_uri r.state, g)
    else and_then (p.validate_credentials (or_empty form.email) (or_empty form.password)) λ user_id.
      done (
        with_code r.redirect_uri code r.state,
        record g { issued_codes = insert code (code_for now r user_id) g.issued_codes },
      )

pub record TokenRequest : Type 0 where
  pub client_id : Option Text
  pub code : Option Text
  pub redirect_uri : Option Text
  pub code_verifier : Option Text
  pub refresh_token : Option Text

pub record TokenResponse : Type 0 where
  pub user_id : ℕ
  pub refresh_token : Text
  pub scope : Option Text

-- The random refresh token is an argument.
unfoldable pub issue :
    Provider → Text → ℕ → Text → Option Text → Grants → Attempt TokenResponse × Grants
unfolding insert
issue p token user_id client_id scope g = elim (p.is_active user_id) [
  | failed fault ↦ (failed fault, g)
  | done false ↦ (failed unauthorized, g)
  | done true ↦
      let held : IssuedRefresh = record {
        client_id = client_id;
        user_id = user_id;
        scope = if_given scope;
      } in
      (
        done (record { user_id = user_id; refresh_token = token; scope = if_given scope }),
        record g { refresh_tokens = insert token held g.refresh_tokens },
      )
]

-- What a code was issued for, against the request that presents it.
abbrev pub fits : Provider → ℕ → TokenRequest → IssuedCode → Bool
fits p now q c =
    not (ltb c.expires_at now)
    && is_text q.client_id c.client_id
    && is_text q.redirect_uri c.redirect_uri
    && text_eq (p.digest (or_empty q.code_verifier)) c.challenge

unfoldable pub exchange :
    Provider → ℕ → Text → TokenRequest → Grants → Attempt TokenResponse × Grants
unfolding lookup remove issue
exchange p now token q g =
    let code = or_empty q.code in
    let spent : Grants = record g { issued_codes = remove code g.issued_codes } in
    if is_text q.client_id p.public_client_id
    then elim (lookup code g.issued_codes) [
      | none ↦ (failed bad_request, spent)
      | some c ↦
          if fits p now q c
          then issue p token c.user_id c.client_id c.scope spent
          else (failed bad_request, spent)
    ]
    else (failed unauthorized, g)

unfoldable pub refresh : Provider → Text → TokenRequest → Grants → Attempt TokenResponse × Grants
unfolding lookup remove issue
refresh p token q g =
    let old = or_empty q.refresh_token in
    let spent : Grants = record g { refresh_tokens = remove old g.refresh_tokens } in
    elim (lookup old g.refresh_tokens) [
      | none ↦ (failed bad_request, spent)
      | some held ↦
          if is_text q.client_id held.client_id
          then issue p token held.user_id held.client_id held.scope spent
          else (failed bad_request, spent)
    ]
