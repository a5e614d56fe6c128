-- ===== src/Backend/Sessions/Secrets.antt =====
-- `PasswordManager` and `TokenManager` of backend/src/wto_backend/security: passwords.py and tokens.py.
-- The libraries for Argon2, SHA-256 and signed tokens are parameters. Texts are naturals, beside what
-- the code measures of them, but for an access token, a list of naturals; times are in seconds.
use wi_fi_test_orchestrator.Prelude.{
  arith, ℕ, ◌+◌, ◌*◌, ◌≡◌, refl, Bool, true, false, not, ◌&&◌, ◌||◌, Option, none, some, List, ltb,
  leb, if◌then◌else◌,
}

-- A password, with its length in characters and in bytes of UTF-8.
pub record Password : Type 0 where
  pub text : ℕ
  pub characters : ℕ
  pub utf8_bytes : ℕ

-- `PasswordHasher`: a hash is of a password and a salt, and verifies the password that it is of.
pub record Hasher : Type 0 where
  pub hash : ℕ → Password → ℕ
  pub verifies : ℕ → Password → Bool
  pub needs_rehash : ℕ → Bool
  pub verifies-hash :
      (salt : ℕ) (password : Password) → verifies (hash salt password) password ≡ true

unfoldable pub validate_password : Password → Bool
validate_password password = not (ltb password.characters 12 || ltb 1024 password.utf8_bytes)

-- `PasswordManager.hash`; `none` is its ValueError.
unfoldable pub hash_password : Hasher → ℕ → Password → Option ℕ
unfolding validate_password
hash_password hasher salt password =
    if validate_password password then some (hasher.hash salt password) else none

-- `PasswordManager.verify`, with the salt of a replacement.
unfoldable pub verify_password : Hasher → ℕ → Password → ℕ → Bool × Option ℕ
verify_password hasher salt password encoded_hash =
    if hasher.verifies encoded_hash password
    then (
      true,
      (if hasher.needs_rehash encoded_hash then some (hasher.hash salt password) else none),
    )
    else (false, none)

-- The claim `token_type` is `access` or another text.
pub record AccessPayload : Type 0 where
  pub iss : ℕ
  pub aud : ℕ
  pub sub : ℕ
  pub iat : ℕ
  pub nbf : ℕ
  pub exp : ℕ
  pub jti : ℕ
  pub token_type_is_access : Bool
  pub sid : ℕ
  pub auth_version : ℕ

-- Whether `alg` is `HS256`, and whether `typ` is `at+jwt`.
pub record Header : Type 0 where
  pub alg_is_hs256 : Bool
  pub typ_is_access : Bool

-- `jwt`: the header of an encoded token is the one it was given, and a token with the algorithm HS256
-- is decoded to its payload by the key, the issuer and the audience it was encoded for, from its `iat`
-- and its `nbf` on and before its `exp`.
pub record Jwt : Type 0 where
  pub encode : AccessPayload → ℕ → Header → List ℕ
  pub get_unverified_header : List ℕ → Option Header
  pub decode : ℕ → List ℕ → ℕ → ℕ → ℕ → Option AccessPayload
  pub header-encode :
      (payload : AccessPayload) (key : ℕ) (header : Header)
      → get_unverified_header (encode payload key header) ≡ some header
  pub decode-encode :
      (payload : AccessPayload) (key : ℕ) (header : Header) (now : ℕ)
      → header.alg_is_hs256 ≡ true
      → leb payload.iat now ≡ true
      → (leb payload.nbf now && ltb now payload.exp) ≡ true
      → decode now (encode payload key header) key payload.iss payload.aud ≡ some payload

pub record AccessClaims : Type 0 where
  pub user_id : ℕ
  pub session_id : ℕ
  pub auth_version : ℕ
  pub jti : ℕ

pub record TokenManager : Type 0 where
  pub jwt : Jwt
  pub sha256 : ℕ → ℕ
  pub signing_key : ℕ
  pub issuer : ℕ
  pub audience : ℕ
  pub ttl_minutes : ℕ

abbrev access_header : Header
access_header = record { alg_is_hs256 = true; typ_is_access = true }

abbrev access_payload : TokenManager → ℕ → ℕ → ℕ → ℕ → ℕ → AccessPayload
access_payload tokens now jti user_id session_id auth_version = record {
  iss = tokens.issuer;
  aud = tokens.audience;
  sub = user_id;
  iat = now;
  nbf = now;
  exp = now + tokens.ttl_minutes * 60;
  jti = jti;
  token_type_is_access = true;
  sid = session_id;
  auth_version = auth_version;
}

-- `issue_access`, with the fresh `jti`.
unfoldable pub issue_access : TokenManager → ℕ → ℕ → ℕ → ℕ → ℕ → List ℕ
issue_access tokens now jti user_id session_id auth_version =
    tokens.jwt.encode (access_payload tokens now jti user_id session_id auth_version)
      tokens.signing_key access_header

unfoldable pub claims_of : Option AccessPayload → Option AccessClaims
claims_of none = none
claims_of (some payload) =
    if not payload.token_type_is_access
    then none
    else some (record {
      user_id = payload.sub;
      session_id = payload.sid;
      auth_version = payload.auth_version;
      jti = payload.jti;
    })

unfoldable pub decode_with : TokenManager → ℕ → List ℕ → Option Header → Option AccessClaims
unfolding claims_of
decode_with tokens now token none = none
decode_with tokens now token (some header) =
    if not header.alg_is_hs256 || not header.typ_is_access
    then none
    else claims_of (tokens.jwt.decode now token tokens.signing_key tokens.issuer tokens.audience)

-- `decode_access`; `none` is InvalidAccessTokenError.
unfoldable pub decode_access : TokenManager → ℕ → List ℕ → Option AccessClaims
unfolding decode_with
decode_access tokens now token =
    decode_with tokens now token (tokens.jwt.get_unverified_header token)

-- An access token is decoded to the claims that it was issued for, at any time from its issue on and
-- before its lifetime is over.
pub decode_access-issue_access :
    (tokens : TokenManager) (now later jti user_id session_id auth_version : ℕ)
    → (leb now later && ltb later (now + tokens.ttl_minutes * 60)) ≡ true
    → decode_access tokens later (issue_access tokens now jti user_id session_id auth_version)
      ≡ some (record {
        user_id = user_id;
        session_id = session_id;
        auth_version = auth_version;
        jti = jti;
      })
unfolding decode_access decode_with issue_access claims_of
decode_access-issue_access tokens now later jti user_id session_id auth_version h =
    rw
      (
        tokens.jwt.header-encode (access_payload tokens now jti user_id session_id auth_version)
            tokens.signing_key access_header,
        tokens.jwt.decode-encode (access_payload tokens now jti user_id session_id auth_version)
            tokens.signing_key access_header later refl (ground (arith, h)) h,
      )
      refl
