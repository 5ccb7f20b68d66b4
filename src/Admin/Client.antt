-- ===== src/Admin/Client.antt =====
-- webV2/admin/src/apiClient.js: the calls of the API, and the errors that they throw.
use tflw_tests.Prelude.{
  ℕ, Bool, true, false, ◌&&◌, Option, none, some, List, [], ◌∷◌, ◌++◌, ltb, leb, ◌==◌,
  if◌then◌else◌, length, drop, Text, codes, starts_with, Map,
}

pub data Method : Type 0 where
  get post patch put delete : Method

-- `MUTATING`
pub mutating : Method → Bool
mutating get = false
mutating post = true
mutating patch = true
mutating put = true
mutating delete = true

-- A field of a JSON body: `Number(text)` and the ISO text of a date are left to the language.
pub data Value : Type 0 where
  text : Text → Value
  number : Text → Value
  date : Text → Value
  flag : Bool → Value
  undefined : Value

pub record Auth : Type 0 where
  pub session_cookie : Option Text
  pub csrf_token : Option Text

-- One request on its way to the API.
pub record Sent : Type 0 where
  pub method : Method
  pub path : Text
  pub cookie : Option Text
  pub csrf_header : Option Text
  pub body : Option (Map Value)

pub record Item : Type 0 where
  pub id : Text
  pub stock : ℕ

-- What the console reads of a JSON answer: whether the body has a text at all, its texts by name, and
-- the products of a list.
pub record Data : Type 0 where
  pub there : Bool
  pub fields : Map Text
  pub items : List Item

pub data Answer : Type 0 where
  answered : ℕ → Data → List Text → Answer
  unreachable : Answer

-- The API answers by all that it has been asked.
abbrev pub Backend : Type 0
Backend = List Sent → Sent → Answer

pub record Reply : Type 0 where
  pub json : Data
  pub set_cookie : List Text

-- A value, an ApiError with its status and problem, or any other error.
pub data Result (A : Type 0) : Type 0 where
  returned : A → Result A
  refused : ℕ → Data → Result A
  crashed : Result A

-- A handler: what it answers after the requests so far, and the requests after it.
abbrev pub Handler : Type 0 → Type 0
Handler A = List Sent → Result A × List Sent

abbrev pub continue_with :
    {A B : Type 0} → Result A × List Sent → (A → Handler B) → Result B × List Sent
continue_with (returned a, sent) f = f a sent
continue_with (refused status problem, sent) f = (refused status problem, sent)
continue_with (crashed, sent) f = (crashed, sent)

infixl 10 ◌>>=◌
abbrev pub ◌>>=◌ : {A B : Type 0} → Handler A → (A → Handler B) → Handler B
(h >>= f) sent = continue_with (h sent) f

infixl 10 ◌>>◌
abbrev pub ◌>>◌ : {A B : Type 0} → Handler A → Handler B → Handler B
(h >> k) sent = continue_with (h sent) (λ a. k)

abbrev pub pure : {A : Type 0} → A → Handler A
pure a sent = (returned a, sent)

-- A header that is set only if its value is truthy.
pub when_truthy : Option Text → Option Text
when_truthy none = none
when_truthy (some []) = none
when_truthy (some (c ∷ s)) = some (c ∷ s)

pub cookie_of : Option Auth → Option Text
unfolding when_truthy
cookie_of none = none
cookie_of (some auth) = when_truthy auth.session_cookie

pub csrf_of : Option Auth → Option Text
unfolding when_truthy
csrf_of none = none
csrf_of (some auth) = when_truthy auth.csrf_token

-- The headers of `apiRequest`: the cookie always, the CSRF token only on a mutating method.
pub request_of : Option Auth → Method → Text → Option (Map Value) → Sent
unfolding cookie_of csrf_of mutating
request_of auth method path body = record {
  method = method;
  path = path;
  cookie = cookie_of auth;
  csrf_header = if mutating method then csrf_of auth else none;
  body = body;
}

pub is_success : ℕ → Bool
is_success status = leb 200 status && ltb status 300

unfoldable pub reply_of : Answer → Result Reply
unfolding is_success
reply_of (answered status json set_cookie) =
    if is_success status
    then returned (record { json = json; set_cookie = set_cookie })
    else refused status json
reply_of unreachable = crashed

unfoldable pub api_request :
    Backend → Option Auth → Method → Text → Option (Map Value) → Handler Reply
unfolding request_of reply_of
api_request backend auth method path body sent =
    let request = request_of auth method path body in
    (reply_of (backend sent request), sent ++ request ∷ [])

abbrev pub session_prefix : Text
session_prefix = codes "session="

abbrev pub semicolon : ℕ
semicolon = 59

-- `[^;]+` after the prefix, as far as it goes.
pub until_semicolon : Text → Text
until_semicolon [] = []
until_semicolon (c ∷ s) = let rest = until_semicolon s in if c == semicolon then [] else c ∷ rest

pub nonempty : Text → Option Text
nonempty [] = none
nonempty (c ∷ s) = some (c ∷ s)

pub cookie_value : Text → Option Text
unfolding until_semicolon nonempty
cookie_value header =
    if starts_with header session_prefix
    then nonempty (until_semicolon (drop (length session_prefix) header))
    else none

pub or_next : Option Text → Option Text → Option Text
or_next none next = next
or_next (some value) next = some value

unfoldable pub extract_session_cookie : List Text → Option Text
unfolding cookie_value or_next
extract_session_cookie [] = none
extract_session_cookie (header ∷ headers) =
    or_next (cookie_value header) (extract_session_cookie headers)
