-- ===== src/Backend/Sessions/Evolution.antt =====
-- What no call takes back: a user, a session and a refresh token stay, a revoked session and a
-- consumed token stay so, and a user's version does not go down.
use wi_fi_test_orchestrator.Prelude.{
  ℕ, ◌≤◌, ◌≡◌, refl, Bool, true, false, some, List, ◌++◌, arith, is_some, if◌then◌else◌,
}
use wi_fi_test_orchestrator.Prelude.Table.{find, update, find-append, find-update}
use wi_fi_test_orchestrator.Backend.Access.{User, AuthSession, RefreshToken, Db, user_id_is}
use wi_fi_test_orchestrator.Backend.Sessions.{session_id_is, digest_is}

-- How a row that stays in its table may change.
module _ {A : Type 0} (Later : A → A → Type 0) (test : ℕ → A → Bool) where
  pub record Kept (key : ℕ) (x : A) (ys : List A) : Type 0 where
    pub row : A
    pub found : find (test key) ys ≡ some row
    pub later : Later x row

  -- Every row that its key finds is found later, and changed as `Later` allows.
  abbrev pub Keeps : List A → List A → Type 0
  Keeps xs ys = (key : ℕ) (x : A) → find (test key) xs ≡ some x → Kept key x ys

  pub Keeps-same : ((x : A) → Later x x) → (xs : List A) → Keeps xs xs
  Keeps-same same xs key x h = record { row = x; found = h; later = same x }

  pub Keeps-trans :
      ((x y z : A) → Later x y → Later y z → Later x z)
      → (xs ys zs : List A) → Keeps xs ys
      → Keeps ys zs
      → Keeps xs zs
  Keeps-trans trans xs ys zs f g key x h =
      let y = f key x h in
      let z = g key y.row y.found in
      record { row = z.row; found = z.found; later = trans x y.row z.row y.later z.later }

  pub Keeps-append : ((x : A) → Later x x) → (xs ys : List A) → Keeps xs (xs ++ ys)
  Keeps-append same xs ys key x h = record {
    row = x;
    found = rw (find-append (test key) xs ys, h) refl;
    later = same x;
  }

  pub Keeps-update :
      (p : A → Bool) (f : A → A) (xs : List A)
      → ((x : A) → Later x x)
      → ((key : ℕ) (x : A) → test key (f x) ≡ test key x)
      → ((x : A) → Later x (f x))
      → Keeps xs (update p f xs)
  Keeps-update p f xs same keep later key x h = record {
    row = if p x then f x else x;
    found = rw (find-update p (test key) f xs (keep key), h) refl;
    later = either (p x);
  }
    where
      either : (b : Bool) → Later x (if b then f x else x)
      either true = later x
      either false = same x

pub record LaterUser (x y : User) : Type 0 where
  pub version : x.auth_version ≤ y.auth_version

pub record LaterSession (x y : AuthSession) : Type 0 where
  pub owner : y.user_id ≡ x.user_id
  pub stays_revoked : is_some x.revoked_at ≡ true → is_some y.revoked_at ≡ true

pub record LaterToken (x y : RefreshToken) : Type 0 where
  pub family : y.session_id ≡ x.session_id
  pub stays_consumed : is_some x.consumed_at ≡ true → is_some y.consumed_at ≡ true

pub record Evolves (db db' : Db) : Type 0 where
  pub users : Keeps LaterUser user_id_is db.users db'.users
  pub sessions : Keeps LaterSession session_id_is db.sessions db'.sessions
  pub tokens : Keeps LaterToken digest_is db.refresh_tokens db'.refresh_tokens

user_same : (x : User) → LaterUser x x
user_same x = record { version = omega arith }

session_same : (x : AuthSession) → LaterSession x x
session_same x = record { owner = refl; stays_revoked = λ h. h }

token_same : (x : RefreshToken) → LaterToken x x
token_same x = record { family = refl; stays_consumed = λ h. h }

pub Evolves-same : (db : Db) → Evolves db db
Evolves-same db = record {
  users = Keeps-same LaterUser user_id_is user_same db.users;
  sessions = Keeps-same LaterSession session_id_is session_same db.sessions;
  tokens = Keeps-same LaterToken digest_is token_same db.refresh_tokens;
}

pub Evolves-trans : (a b c : Db) → Evolves a b → Evolves b c → Evolves a c
Evolves-trans a b c f g = record {
  users =
      Keeps-trans LaterUser user_id_is
        (λ x y z p q. record { version = omega (arith, p.version, q.version) }) a.users b.users
        c.users f.users g.users;
  sessions =
      Keeps-trans LaterSession session_id_is
        (λ x y z p q. record {
          owner = rw (q.owner, p.owner) refl;
          stays_revoked = λ h. q.stays_revoked (p.stays_revoked h);
        })
        a.sessions b.sessions c.sessions f.sessions g.sessions;
  tokens =
      Keeps-trans LaterToken digest_is
        (λ x y z p q. record {
          family = rw (q.family, p.family) refl;
          stays_consumed = λ h. q.stays_consumed (p.stays_consumed h);
        })
        a.refresh_tokens b.refresh_tokens c.refresh_tokens f.tokens g.tokens;
}

-- The changes that the calls make to one table.
pub users_update :
    (p : User → Bool) (f : User → User) (xs : List User)
    → ((key : ℕ) (x : User) → user_id_is key (f x) ≡ user_id_is key x)
    → ((x : User) → x.auth_version ≤ (f x).auth_version)
    → Keeps LaterUser user_id_is xs (update p f xs)
users_update p f xs keep later =
    Keeps-update LaterUser user_id_is p f xs user_same keep (λ x. record { version = later x })

pub users_same : (xs : List User) → Keeps LaterUser user_id_is xs xs
users_same xs = Keeps-same LaterUser user_id_is user_same xs

pub users_append : (xs ys : List User) → Keeps LaterUser user_id_is xs (xs ++ ys)
users_append xs ys = Keeps-append LaterUser user_id_is user_same xs ys

pub sessions_update :
    (p : AuthSession → Bool) (f : AuthSession → AuthSession) (xs : List AuthSession)
    → ((key : ℕ) (x : AuthSession) → session_id_is key (f x) ≡ session_id_is key x)
    → ((x : AuthSession) → LaterSession x (f x))
    → Keeps LaterSession session_id_is xs (update p f xs)
sessions_update p f xs keep later =
    Keeps-update LaterSession session_id_is p f xs session_same keep later

pub sessions_same : (xs : List AuthSession) → Keeps LaterSession session_id_is xs xs
sessions_same xs = Keeps-same LaterSession session_id_is session_same xs

pub sessions_append : (xs ys : List AuthSession) → Keeps LaterSession session_id_is xs (xs ++ ys)
sessions_append xs ys = Keeps-append LaterSession session_id_is session_same xs ys

pub tokens_update :
    (p : RefreshToken → Bool) (f : RefreshToken → RefreshToken) (xs : List RefreshToken)
    → ((key : ℕ) (x : RefreshToken) → digest_is key (f x) ≡ digest_is key x)
    → ((x : RefreshToken) → LaterToken x (f x))
    → Keeps LaterToken digest_is xs (update p f xs)
tokens_update p f xs keep later = Keeps-update LaterToken digest_is p f xs token_same keep later

pub tokens_same : (xs : List RefreshToken) → Keeps LaterToken digest_is xs xs
tokens_same xs = Keeps-same LaterToken digest_is token_same xs

pub tokens_append : (xs ys : List RefreshToken) → Keeps LaterToken digest_is xs (xs ++ ys)
tokens_append xs ys = Keeps-append LaterToken digest_is token_same xs ys
