-- ===== src/Shop/Oauth/Single.antt =====
-- A code buys one token at most, whatever else is asked.
use tflw_tests.Prelude.{
  ℕ, suc, ◌≤◌, ◌≡◌, refl, sym, ap, ◌∙◌, ◌⊎◌, inl, inr, Bool, true, false, ◌&&◌, Option, none, List,
  [], ◌∷◌, arith, if◌then◌else◌, Bool-cases, Option-cases, any, Text, text_eq, text_eq→eq, lookup,
  remove, lookup-insert, lookup-remove,
}
use tflw_tests.Shop.Tables.{Attempt, failed, done, and_then, Attempt-cases}
use tflw_tests.Shop.Oauth.{
  Grants, Provider, or_empty, is_text, validate, AuthorizeForm, code_for, decide, TokenRequest,
  issue, fits, exchange, refresh,
}

-- The requests to the service, each with its clock and its random text.
pub data Call : Type 0 where
  authorized : ℕ → Text → AuthorizeForm → Call
  exchanged : ℕ → Text → TokenRequest → Call
  refreshed : Text → TokenRequest → Call

abbrev pub grants_after : {A : Type 0} → Attempt (A × Grants) → Grants → Grants
grants_after (failed fault) g = g
grants_after (done (x, h)) g = h

unfoldable pub answer : Provider → Call → Grants → Grants
unfolding decide exchange refresh
answer p (authorized now code form) g = grants_after (decide p now code form g) g
answer p (exchanged now token q) g = (exchange p now token q g).1
answer p (refreshed token q) g = (refresh p token q g).1

abbrev pub succeeds : {A : Type 0} → Attempt A → Bool
succeeds (failed fault) = false
succeeds (done x) = true

-- The call is an exchange of this code that gives a token.
unfoldable pub buys : Provider → Text → Call → Grants → Bool
unfolding exchange
buys p code (authorized now fresh form) g = false
buys p code (exchanged now token q) g =
    text_eq code (or_empty q.code) && succeeds (exchange p now token q g).0
buys p code (refreshed token q) g = false

unfoldable pub bought : Provider → Text → List Call → Grants → ℕ
unfolding answer buys
bought p code [] g = 0
bought p code (c ∷ cs) g =
    let rest = bought p code cs (answer p c g) in if buys p code c g then suc rest else rest

-- No later call draws the same random code.
abbrev pub redraws : Text → Call → Bool
redraws code (authorized now fresh form) = text_eq code fresh
redraws code (exchanged now token q) = false
redraws code (refreshed token q) = false

-- The codes behind a refresh and behind an issue.
issue-codes :
    (p : Provider) (token : Text) (user_id : ℕ) (client_id : Text) (scope : Option Text)
    (g : Grants)
    → (issue p token user_id client_id scope g).1.issued_codes ≡ g.issued_codes
unfolding issue
issue-codes p token user_id client_id scope g = elim (Attempt-cases (p.is_active user_id)) [
  | inl (fault, e) ↦ rw (e, issue) refl
  | inr (true, e) ↦ rw (e, issue) refl
  | inr (false, e) ↦ rw (e, issue) refl
]

refresh-codes :
    (p : Provider) (token : Text) (q : TokenRequest) (g : Grants)
    → (refresh p token q g).1.issued_codes ≡ g.issued_codes
unfolding refresh
refresh-codes p token q g =
    elim (Option-cases (lookup (or_empty q.refresh_token) g.refresh_tokens)) [
      | inl e ↦ rw (e, refresh) refl
      | inr (held, e) ↦ elim (Bool-cases (is_text q.client_id held.client_id)) [
        | inr f ↦ rw (e, f, refresh) refl
        | inl f ↦ rw (e, f, refresh) (issue-codes p token held.user_id held.client_id held.scope _)
      ]
    ]

-- An exchange takes its code away, or is of another client and changes nothing.
exchange-codes :
    (p : Provider) (now : ℕ) (token : Text) (q : TokenRequest) (g : Grants)
    → ((exchange p now token q g).1.issued_codes ≡ remove (or_empty q.code) g.issued_codes)
      ⊎ (((exchange p now token q g).1 ≡ g) × (succeeds (exchange p now token q g).0 ≡ false))
unfolding exchange
exchange-codes p now token q g = elim (Bool-cases (is_text q.client_id p.public_client_id)) [
  | inr a ↦ inr (rw (a, exchange) refl, rw (a, exchange) refl)
  | inl a ↦ elim (Option-cases (lookup (or_empty q.code) g.issued_codes)) [
    | inl e ↦ inl (rw (a, e, exchange) refl)
    | inr (c, e) ↦ elim (Bool-cases (fits p now q c)) [
      | inr f ↦ inl (rw (a, e, f, exchange) refl)
      | inl f ↦ inl (rw (a, e, f, exchange) (issue-codes p token c.user_id c.client_id c.scope _))
    ]
  ]
]

-- A code that is not there buys nothing.
exchange-none :
    (p : Provider) (now : ℕ) (token : Text) (q : TokenRequest) (g : Grants)
    → lookup (or_empty q.code) g.issued_codes ≡ none
    → succeeds (exchange p now token q g).0 ≡ false
unfolding exchange
exchange-none p now token q g e = elim (Bool-cases (is_text q.client_id p.public_client_id)) [
  | inr a ↦ rw (a, exchange) refl
  | inl a ↦ rw (a, e, exchange) refl
]

decide-codes :
    (p : Provider) (now : ℕ) (fresh code : Text) (form : AuthorizeForm) (g : Grants)
    → text_eq code fresh ≡ false
    → lookup code (grants_after (decide p now fresh form g) g).issued_codes
      ≡ lookup code g.issued_codes
unfolding decide and_then
decide-codes p now fresh code form g other = elim (Attempt-cases (validate p form.query)) [
  | inl (fault, e) ↦ rw (e, decide) refl
  | inr (r, e) ↦ elim (Bool-cases form.denies) [
    | inl f ↦ rw (e, f, decide) refl
    | inr f ↦
        elim (Attempt-cases
          (p.validate_credentials (or_empty form.email) (or_empty form.password))) [
            | inl (fault, h) ↦ rw (e, f, h, decide) refl
            | inr (user_id, h) ↦
                rw (e, f, h, decide)
                  (lookup-insert fresh code (code_for now r user_id) g.issued_codes ∙ rw other refl)
          ]
  ]
]

refreshed-lookup :
    (p : Provider) (token code : Text) (q : TokenRequest) (g : Grants)
    → lookup code (refresh p token q g).1.issued_codes ≡ lookup code g.issued_codes
refreshed-lookup p token code q g = ap (lookup code) (refresh-codes p token q g)

-- A code that is gone stays away until it is drawn again.
answer-none :
    (p : Provider) (code : Text) (c : Call) (g : Grants)
    → redraws code c ≡ false
    → lookup code g.issued_codes ≡ none
    → lookup code (answer p c g).issued_codes ≡ none
unfolding answer
answer-none p code (authorized now fresh form) g other gone =
    decide-codes p now fresh code form g other ∙ gone
answer-none p code (refreshed token q) g other gone = refreshed-lookup p token code q g ∙ gone
answer-none p code (exchanged now token q) g other gone = elim (exchange-codes p now token q g) [
  | inr (same, failing) ↦ ap (λ h. lookup code h.issued_codes) same ∙ gone
  | inl taken ↦
      ap (lookup code) taken
      ∙ lookup-remove (or_empty q.code) code g.issued_codes
      ∙ elim (Bool-cases (text_eq code (or_empty q.code))) [ inl e ↦ rw e refl | inr e ↦ rw e gone ]
]

buys-none :
    (p : Provider) (code : Text) (c : Call) (g : Grants)
    → lookup code g.issued_codes ≡ none
    → buys p code c g ≡ false
unfolding buys
buys-none p code (authorized now fresh form) g gone = refl
buys-none p code (refreshed token q) g gone = refl
buys-none p code (exchanged now token q) g gone =
    elim (Bool-cases (text_eq code (or_empty q.code))) [
      | inr e ↦ rw e refl
      | inl e ↦
          let same : or_empty q.code ≡ code = sym (text_eq→eq code (or_empty q.code) e) in
          rw e (exchange-none p now token q g (ap (λ k. lookup k g.issued_codes) same ∙ gone))
    ]

bought-none :
    (p : Provider) (code : Text) (calls : List Call) (g : Grants)
    → any (redraws code) calls ≡ false
    → lookup code g.issued_codes ≡ none
    → bought p code calls g ≡ 0
unfolding bought
bought-none p code [] g other gone = refl
bought-none p code (c ∷ cs) g other gone = rw (buys-none p code c g gone) (
    bought-none p code cs (answer p c g) (ground arith)
      (answer-none p code c g (ground arith) gone))

-- What is bought is gone.
buys-gone :
    (p : Provider) (code : Text) (c : Call) (g : Grants)
    → buys p code c g ≡ true
    → lookup code (answer p c g).issued_codes ≡ none
unfolding buys answer
buys-gone p code (authorized now fresh form) g h = cc h
buys-gone p code (refreshed token q) g h = cc h
buys-gone p code (exchanged now token q) g h = elim (Bool-cases (text_eq code (or_empty q.code))) [
  | inr e ↦ cc (rw e at h)
  | inl e ↦ elim (exchange-codes p now token q g) [
    | inr (same, failing) ↦ cc (rw (e, failing) at h)
    | inl taken ↦
        ap (lookup code) taken ∙ lookup-remove (or_empty q.code) code g.issued_codes ∙ rw e refl
  ]
]

-- Whatever grants there are and whatever is authorized, exchanged and refreshed in what order, a
-- code that is not drawn again buys one token at most.
pub bought-bounds :
    (p : Provider) (code : Text) (calls : List Call) (g : Grants)
    → any (redraws code) calls ≡ false
    → bought p code calls g ≤ 1
unfolding bought
bought-bounds p code [] g other = omega arith
bought-bounds p code (c ∷ cs) g other = elim (Bool-cases (buys p code c g)) [
  | inl e ↦
      let rest = bought-none p code cs (answer p c g) (ground arith) (buys-gone p code c g e) in
      rw (e, rest) (omega arith)
  | inr e ↦ rw e (bought-bounds p code cs (answer p c g) (ground arith))
]
