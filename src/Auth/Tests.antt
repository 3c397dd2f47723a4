-- ===== src/Auth/Tests.antt =====
-- An account that signs in, and the theorems on its session.
use tripvault.Base.{◌+◌, ◌*◌, ◌≤◌, ◌<◌, ◌≡◌, refl, arith, true, false, none, some, List, [], ◌∷◌}
use tripvault.Base.Text.{Text, text, text_eq}
use tripvault.Domain.Values.{Uuid, Time}
use tripvault.Domain.Users.{Session, User}
use tripvault.Sessions.{
  Failure, Reply, gives, fails, token_invalid, token_reused, invalid_credentials,
  email_not_verified, active_user,
}
use tripvault.Sessions.Statements.{
  Statement, creates, rotates, revokes, execute_all, deletes_finished,
}
use tripvault.Sessions.Once.{exchanges_of, exchanges_of-le-one}
use tripvault.Auth.{
  Service, Accounts, SignedIn, refresh, login, logout, authenticate, reuse_grace, truncate,
}
use tripvault.Auth.Reused.{refresh_reused}
use tripvault.Auth.Spent.{refresh_spent}
use tripvault.Auth.SignedOut.{authenticate-logout}

abbrev token_a : Text
token_a = 0 ∷ []

abbrev token_b : Text
token_b = 1 ∷ []

abbrev token_c : Text
token_c = 2 ∷ []

abbrev token_d : Text
token_d = 3 ∷ []

abbrev parsed : Text → Reply (Uuid × Uuid)
parsed (user_id ∷ session_id ∷ []) = gives (user_id, session_id)
parsed _ = fails token_invalid

abbrev service : Service
service = record {
  hash_token = λ t. 1 ∷ t;
  verify_password = λ hash password. gives (text_eq hash password);
  dummy_password_hash = [];
  issue_access_token = λ user_id session_id. gives (user_id ∷ session_id ∷ []);
  parse_access_token = parsed;
  access_token_ttl = 900 * 1000000000;
  refresh_token_ttl = 30 * (24 * (3600 * 1000000000));
  lower = λ t. t;
}

abbrev ann : User
ann = record {
  id = 7;
  email = text "ann@example.org";
  display_name = text "Ann";
  password_hash = text "secret";
  is_admin = false;
  is_active = true;
  must_change_password = false;
  email_notifications = true;
  email_unverified_since = none;
  locale = [];
  theme = text "auto";
  theme_id = none;
  units = text "km";
  date_format = text "dmy";
  time_format = text "h24";
  default_currency = text "EUR";
  avatar_key = [];
  avatar_updated_at = none;
  home = none;
  last_login_at = none;
  created_at = 1;
  updated_at = 1;
}

abbrev bob : User
bob = record ann {
  id = 8;
  email = text "bob@example.org";
  is_active = false;
  email_unverified_since = some 3;
}

abbrev start : Accounts
start = record { users = ann ∷ bob ∷ []; sessions = [] }

abbrev in_session : Reply SignedIn × Accounts
in_session = login service (text "ann@example.org") (text "secret") [] 50 token_a 100 start

abbrev accounts : Accounts
accounts = in_session.1

abbrev once : Reply SignedIn × Accounts
once = refresh service token_a token_b 200 accounts

abbrev handed : SignedIn
handed = record {
  id = 50;
  access_token = 7 ∷ 50 ∷ [];
  refresh_token = token_b;
  expires_in = 900;
  user = record ann { last_login_at = some 100 };
}

once_gives : once.0 ≡ gives handed
unfolding refresh login
once_gives = refl

wrong_password :
    (login service (text "ann@example.org") (text "x") [] 50 token_a 100 start).0
    ≡ fails invalid_credentials
unfolding login
wrong_password = refl

unknown_address :
    (login service (text "eve@example.org") (text "x") [] 50 token_a 100 start).0
    ≡ fails invalid_credentials
unfolding login
unknown_address = refl

unverified :
    (login service (text "bob@example.org") (text "secret") [] 50 token_a 100 start).0
    ≡ fails email_not_verified
unfolding login
unverified = refl

-- A cut in the middle of a character of two bytes leaves it out.
truncate_character : truncate (65 ∷ 0xc3 ∷ 0xa9 ∷ []) 2 ≡ 65 ∷ []
unfolding truncate
truncate_character = refl

abbrev stored : Session
stored = record {
  id = 50;
  user_id = 7;
  token_hash = 1 ∷ token_a;
  user_agent = [];
  created_at = 100;
  last_used_at = 100;
  expires_at = 100 + 30 * (24 * (3600 * 1000000000));
  revoked_at = none;
  rotated_at = none;
}

abbrev held : Session
held = record stored {
  token_hash = 1 ∷ token_b;
  last_used_at = 200;
  expires_at = 200 + 30 * (24 * (3600 * 1000000000));
  rotated_at = some 200;
}

-- Another device signs in and out, and old sessions are removed.
abbrev meanwhile : List Statement
meanwhile =
    creates (record stored { id = 51; token_hash = 1 ∷ token_d })
    ∷ revokes 7 51 250
    ∷ deletes_finished 260
    ∷ []

abbrev by_then : Accounts
by_then = record { users = ann ∷ []; sessions = execute_all meanwhile once.1.sessions }

refresh_reused_example :
    let t = 200 + reuse_grace in
    let again = refresh service token_a token_c t by_then in
    (t < 200 + reuse_grace → again ≡ (fails token_invalid, by_then))
    × (200 + reuse_grace ≤ t
        → (again.0 ≡ fails token_reused)
          × ((user_id : Uuid) (instant : Time)
              → active_user user_id 50 instant again.1.users again.1.sessions ≡ none))
unfolding refresh login
refresh_reused_example =
    refresh_reused service token_a token_b token_c 200 (200 + reuse_grace) accounts handed held
      meanwhile (ann ∷ []) (tt, tt) (cc) (refl, tt) refl refl ((cc), (tt, (tt, tt)))
      (tt, ((cc), (omega arith, tt)))

-- The next token is exchanged too.
refresh_spent_example :
    let later : Accounts = record {
      users = ann ∷ [];
      sessions = execute_all (rotates 50 (1 ∷ token_b) (1 ∷ token_c) 300 900 ∷ []) once.1.sessions;
    } in
    (f : Failure) × ((refresh service token_a token_d 400 later).0 ≡ fails f)
unfolding refresh login
refresh_spent_example =
    refresh_spent service token_a token_b token_d 200 400 accounts handed
      (rotates 50 (1 ∷ token_b) (1 ∷ token_c) 300 900 ∷ []) (ann ∷ []) (tt, tt) (cc) refl ((cc), tt)

abbrev signed_out : Accounts
signed_out = (logout service token_a 300 accounts).1

abbrev others : List Statement
others = deletes_finished 20 ∷ revokes 7 51 310 ∷ []

abbrev later : Accounts
later = record { users = ann ∷ []; sessions = execute_all others signed_out.sessions }

authenticate-logout_example : authenticate service (7 ∷ 50 ∷ []) 500 later ≡ fails token_invalid
unfolding login logout
authenticate-logout_example =
    authenticate-logout service token_a (7 ∷ 50 ∷ []) 300 accounts later stored 7 others (tt, tt)
      refl (tt, (tt, tt)) refl refl 500

-- Two refreshes with one token at once, and one later.
abbrev races : List Statement
races =
    rotates 50 (1 ∷ token_a) (1 ∷ token_b) 200 900
    ∷ rotates 50 (1 ∷ token_a) (1 ∷ token_c) 201 901
    ∷ revokes 7 50 202
    ∷ rotates 50 (1 ∷ token_a) (1 ∷ token_d) 400 902
    ∷ []

races_once : exchanges_of (1 ∷ token_a) races accounts.sessions ≡ 1
unfolding exchanges_of login
races_once = refl

exchanges_of-le-one_example : exchanges_of (1 ∷ token_a) races accounts.sessions ≤ 1
unfolding login
exchanges_of-le-one_example =
    exchanges_of-le-one (1 ∷ token_a) races accounts.sessions ((cc), ((cc), (tt, ((cc), tt))))
      (tt, tt)
