-- ===== src/Shop/Oauth/Examples.antt =====
-- A provider with one user, a code that is presented twice, and the theorem at it.
use tflw_tests.Prelude.{◌≤◌, ◌≡◌, refl, true, none, some, List, [], ◌∷◌, codes, text_eq}
use tflw_tests.Shop.Tables.{done}
use tflw_tests.Shop.Oauth.{Grants, Provider, TokenRequest}
use tflw_tests.Shop.Oauth.Single.{Call, exchanged, bought, bought-bounds}

abbrev one_user : Provider
one_user = record {
  public_client_id = codes "cli";
  parse_url = λ uri. some (record { protocol = codes "http:"; hostname = codes "localhost" });
  digest = λ text. text;
  validate_credentials = λ email password. done 9;
  is_active = λ user_id. done true;
}

abbrev held_code : Grants
held_code = record {
  issued_codes =
      (
        codes "c1",
        record {
          client_id = codes "cli";
          redirect_uri = codes "http://localhost/";
          challenge = codes "v";
          user_id = 9;
          scope = none;
          expires_at = 900;
        },
      )
      ∷ [];
  refresh_tokens = [];
}

abbrev present : TokenRequest
present = record {
  client_id = some (codes "cli");
  code = some (codes "c1");
  redirect_uri = some (codes "http://localhost/");
  code_verifier = some (codes "v");
  refresh_token = none;
}

abbrev twice : List Call
twice = exchanged 500 (codes "r1") present ∷ exchanged 501 (codes "r2") present ∷ []

bought-bounds_example : bought one_user (codes "c1") twice held_code ≤ 1
bought-bounds_example = bought-bounds one_user (codes "c1") twice held_code refl

-- It buys one.
bought-twice : bought one_user (codes "c1") twice held_code ≡ 1
unfolding bought text_eq
bought-twice = refl
