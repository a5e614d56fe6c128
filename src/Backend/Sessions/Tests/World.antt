-- ===== src/Backend/Sessions/Tests/World.antt =====
-- A service over concrete libraries, and tables with one user.
use wi_fi_test_orchestrator.Prelude.{
  ℕ, ◌+◌, ◌≡◌, refl, Bool, true, false, ◌&&◌, Option, none, some, List, [], ◌∷◌, ◌==◌, ==_refl, ltb,
  leb, if◌then◌else◌, arith,
}
use wi_fi_test_orchestrator.Prelude.Unique.{Unique}
use wi_fi_test_orchestrator.Prelude.Table.{find, count}
use wi_fi_test_orchestrator.Backend.Access.{
  administrator, Db, User, AuthSession, RefreshToken, new_user,
}
use wi_fi_test_orchestrator.Backend.Access.Counting.{user_key}
use wi_fi_test_orchestrator.Backend.Sessions.Secrets.{
  Password, Hasher, AccessPayload, Header, AccessClaims,
}
use wi_fi_test_orchestrator.Backend.Sessions.Tokens.{Chain}
use wi_fi_test_orchestrator.Backend.Sessions.{AuthService, Drawn, Issued}

abbrev pub hasher : Hasher
hasher = record {
  hash = λ salt password. password.text;
  verifies = λ encoded password. encoded == password.text;
  needs_rehash = λ encoded. false;
  verifies-hash = λ salt password. ==_refl password.text;
}

abbrev pub bit : Bool → ℕ
bit true = 1
bit false = 0

pub bit_back : (b : Bool) → (bit b == 1) ≡ b
bit_back true = refl
bit_back false = refl

abbrev pub encode : AccessPayload → ℕ → Header → List ℕ
encode p key h =
    bit h.alg_is_hs256
    ∷ bit h.typ_is_access
    ∷ key
    ∷ p.iss
    ∷ p.aud
    ∷ p.sub
    ∷ p.iat
    ∷ p.nbf
    ∷ p.exp
    ∷ p.jti
    ∷ bit p.token_type_is_access
    ∷ p.sid
    ∷ p.auth_version
    ∷ []

abbrev pub header_of : List ℕ → Option Header
header_of (alg ∷ typ ∷ rest) = some (record { alg_is_hs256 = alg == 1; typ_is_access = typ == 1 })
header_of _ = none

abbrev pub decode : ℕ → List ℕ → ℕ → ℕ → ℕ → Option AccessPayload
decode now (alg ∷ typ ∷ k ∷ iss ∷ aud ∷ sub ∷ iat ∷ nbf ∷ exp ∷ jti ∷ kind ∷ sid ∷ version ∷ []) key
      issuer audience =
    if k == key && iss == issuer && aud == audience && leb nbf now && ltb now exp
    then some (record {
      iss = iss;
      aud = aud;
      sub = sub;
      iat = iat;
      nbf = nbf;
      exp = exp;
      jti = jti;
      token_type_is_access = kind == 1;
      sid = sid;
      auth_version = version;
    })
    else none
decode now _ key issuer audience = none

pub header_back : (p : AccessPayload) (key : ℕ) (h : Header) → header_of (encode p key h) ≡ some h
header_back p key h = rw (bit_back h.alg_is_hs256, bit_back h.typ_is_access) refl

pub decode_back :
    (p : AccessPayload) (key : ℕ) (h : Header) (now : ℕ)
    → h.alg_is_hs256 ≡ true
    → leb p.iat now ≡ true
    → (leb p.nbf now && ltb now p.exp) ≡ true
    → decode now (encode p key h) key p.iss p.aud ≡ some p
decode_back p key h now alg issued valid =
    rw (==_refl key, ==_refl p.iss, ==_refl p.aud, valid, bit_back p.token_type_is_access) refl

abbrev pub service : AuthService
service = record {
  passwords = hasher;
  tokens = record {
    jwt = record {
      encode = encode;
      get_unverified_header = header_of;
      decode = decode;
      header-encode = header_back;
      decode-encode = decode_back;
    };
    sha256 = λ text. text;
    signing_key = 7;
    issuer = 8;
    audience = 9;
    ttl_minutes = 15;
  };
  absolute_days = 30;
  inactivity_days = 7;
}

abbrev pub password : Password
password = record { text = 99; characters = 12; utf8_bytes = 12 }

abbrev pub drawn : Drawn
drawn = record { session_id = 20; token_id = 30; refresh_plaintext = 40; jti = 50; salt = 60 }

abbrev pub second : Drawn
second = record { session_id = 0; token_id = 31; refresh_plaintext = 41; jti = 51; salt = 61 }

abbrev pub claims : AccessClaims
claims = record { user_id = 1; session_id = 20; auth_version = 1; jti = 50 }

abbrev pub alone : Db
alone = record {
  users = new_user 1 2 none 99 ∷ [];
  roles = record { id = 10; key = administrator } ∷ [];
  user_roles = [];
  sessions = [];
  refresh_tokens = [];
  audit = [];
}

pub alone-Unique : Unique user_key alone.users
alone-Unique = (tt, tt)

abbrev pub user : User
user = record (new_user 1 2 none 99) { last_login_at = some 100 }

abbrev pub session : AuthSession
session = record {
  id = 20;
  user_id = 1;
  auth_version = 1;
  issued_at = 100;
  absolute_expires_at = 2592100;
  inactivity_expires_at = 604900;
  last_used_at = some 100;
  revoked_at = none;
  revocation_reason = none;
}

abbrev pub token : RefreshToken
token = record {
  id = 30;
  session_id = 20;
  token_digest = 40;
  parent_token_id = none;
  replacement_token_id = none;
  issued_at = 100;
  expires_at = 604900;
  consumed_at = none;
  revoked_at = none;
  revocation_reason = none;
}

-- The tables with a session and its first refresh token.
abbrev pub with_session : Db
with_session = record alone {
  users = user ∷ [];
  sessions = session ∷ [];
  refresh_tokens = token ∷ [];
}

abbrev pub issued : ℕ → User → ℕ → ℕ → Issued
issued now owner jti refresh_token = record {
  access = 1 ∷ 1 ∷ 7 ∷ 8 ∷ 9 ∷ 1 ∷ now ∷ now ∷ (now + 900) ∷ jti ∷ 1 ∷ 20 ∷ owner.auth_version ∷ [];
  refresh_token = refresh_token;
  user = owner;
}

pub with_session-Chain : Chain with_session
unfolding count find
with_session-Chain = record {
  ids = (tt, tt);
  digests = (tt, tt);
  held = (refl, tt);
  one = λ session_id. ground arith;
}
