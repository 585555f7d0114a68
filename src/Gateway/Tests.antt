-- ===== src/Gateway/Tests.antt =====
-- The theorems on the gateway, with accounts and tokens in memory.
use advanced_node.Common.{String, ◌≡◌, ◌↔◌, true, false, none, some, [], ◌∷◌, ◌==◌}
use advanced_node.Exec.{Result, ok, thrown}
use advanced_node.Exec.Ensures.{Ensures}
use advanced_node.Shared.AddErrorHelper.{App}
use advanced_node.Gateway.Tables.{User, RefreshToken, user, admin, local}
use advanced_node.Gateway.Parties.{
  Parties, State, Drawn, Profile, JwtPayload, Registration, invalid_state,
}
use advanced_node.Gateway.Auth.{log_in, register, refresh, callback_with}
use advanced_node.Gateway.Calls.{NoNewToken}
use advanced_node.Gateway.Login.{Admitted, log_in-Admitted}
use advanced_node.Gateway.Register.{Registered, OnlyAccount, register-Registered}
use advanced_node.Gateway.Refresh.{Renewed, refresh-Renewed}
use advanced_node.Gateway.Google.{callback-once}
use advanced_node.Gateway.Access.{auth_middleware, served_by, Allows, served_iff}
use advanced_node.Gateway.Memory.{users_in_memory, tokens_in_memory}

abbrev pub ann_token : JwtPayload
ann_token = record { user_id = "u1"; email = "ann@shop.in"; role = admin }

abbrev pub verify : String → Result JwtPayload
verify token = ok ann_token

abbrev dan_profile : Profile
dan_profile = record {
  sub = some "g-17";
  email = some "dan@shop.in";
  given_name = some "Dan";
  family_name = none;
}

abbrev pub parties : Parties
parties = record {
  users = users_in_memory;
  tokens = tokens_in_memory;
  sign_access = λ payload. ok "access";
  sign_refresh = λ jti payload. ok jti;
  verify_refresh = verify;
  hash_password = λ password. ok password;
  verify_password = λ hash password. ok (hash == password);
  exchange = λ code. ok (some "google-token");
  profile = λ token. ok dan_profile;
  client_id = some "id";
  client_secret = some "secret";
  callback_url = some "https://shop.in/callback";
}

abbrev pub ann : User
ann = record {
  id = "u1";
  email = "ann@shop.in";
  password_hash = some "secret-hash";
  first_name = none;
  last_name = none;
  role = admin;
  provider = local;
  provider_id = none;
  email_verified = false;
  is_active = true;
}

-- An account that was disabled.
abbrev pub dan : User
dan = record ann { id = "u3"; email = "dan@shop.in"; role = user; is_active = false }

abbrev pub old_token : RefreshToken
old_token = record { id = "t1"; token = "refresh-1"; user_id = "u1"; expires_at = 9000 }

abbrev pub drawn : Drawn
drawn = record { user_id = "u2"; token_id = "t2"; jti = "refresh-2" }

abbrev pub start : State parties
start = record {
  users = ("ann@shop.in", ann) ∷ ("dan@shop.in", dan) ∷ [];
  tokens = ("refresh-1", old_token) ∷ [];
  states = ("st-1", 900) ∷ [];
}

abbrev pub bob : Registration
bob = record {
  email = "bob@shop.in";
  password = "long-enough";
  first_name = none;
  last_name = none;
}

log_in-Admitted_example :
    Ensures
      (Admitted parties drawn 500 "ann@shop.in" "secret-hash" start)
      (λ _ s'. NoNewToken parties start s')
      (log_in parties drawn 500 "ann@shop.in" "secret-hash" start)
log_in-Admitted_example = log_in-Admitted parties drawn 500 "ann@shop.in" "secret-hash" start

register-Registered_example :
    Ensures
      (Registered parties drawn 500 bob start)
      (λ _ s'. OnlyAccount parties "bob@shop.in" start s')
      (register parties drawn 500 bob start)
register-Registered_example = register-Registered parties drawn 500 bob start

refresh-Renewed_example :
    Ensures
      (Renewed parties 500 "refresh-1" start)
      (λ _ s'. s' ≡ start)
      (refresh parties 500 "refresh-1" start)
refresh-Renewed_example = refresh-Renewed parties 500 "refresh-1" start

abbrev after_first : State parties
after_first = (callback_with parties drawn 500 "code" "st-1" start).1

callback-once_example :
    ((callback_with parties drawn 600 "code-2" "st-1" after_first).0 ≡ thrown invalid_state)
    × ((callback_with parties drawn 600 "code-2" "st-1" after_first).1.users ≡ after_first.users)
    × ((callback_with parties drawn 600 "code-2" "st-1" after_first).1.tokens ≡ after_first.tokens)
callback-once_example = callback-once parties drawn drawn 500 600 "code" "code-2" "st-1" start

served_iff_example :
    (served_by (admin ∷ []) (auth_middleware verify (some "Bearer tok")) ≡ some ann_token)
    ↔ Allows verify (admin ∷ []) (some "Bearer tok") ann_token
served_iff_example = served_iff verify (admin ∷ []) (some "Bearer tok") ann_token

abbrev pub service : App (State parties)
service = record { db = start; errors = [] }
