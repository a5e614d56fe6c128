-- ===== src/Backend/Sessions/Tokens.antt =====
-- The refresh tokens of a session form a chain: at any time at most one is not consumed.
use wi_fi_test_orchestrator.Prelude.{
  ℕ, ◌≤◌, ◌≡◌, refl, Bool, true, false, ◌&&◌, Option, none, some, List, [], ◌∷◌, ◌++◌, arith, ◌==◌,
  ==_refl, ==_iff, is_none, is_some, All, All-append, Bool-cases, Option-cases, inl, inr,
}
use wi_fi_test_orchestrator.Prelude.Table.{
  find, count, update, find-append, count-append, All-update,
}
use wi_fi_test_orchestrator.Prelude.Unique.{Unique, Unique-append, Unique-update}
use wi_fi_test_orchestrator.Prelude.Counts.{
  count-update, count-update-lt, count-update-le, count-none, All-map,
}
use wi_fi_test_orchestrator.Backend.Access.{User, AuthSession, RefreshToken, Reason, Db}
use wi_fi_test_orchestrator.Backend.Sessions.{
  AuthService, Drawn, open_session, token_taken, session_id_is, digest_is, token_id_is, consume,
  revoke_token,
}
use wi_fi_test_orchestrator.Backend.Sessions.Evolution.{Keeps, LaterSession}

abbrev pub token_id : RefreshToken → ℕ
token_id token = token.id

abbrev pub token_digest : RefreshToken → ℕ
token_digest token = token.token_digest

-- A token of the session that is not consumed.
abbrev pub open_token : ℕ → RefreshToken → Bool
open_token session_id token = token.session_id == session_id && is_none token.consumed_at

abbrev pub HasSession : List AuthSession → RefreshToken → Type 0
HasSession sessions token = is_some (find (session_id_is token.session_id) sessions) ≡ true

-- The constraints of the schema on refresh tokens, and that a session has at most one open token.
pub record Chained (sessions : List AuthSession) (tokens : List RefreshToken) : Type 0 where
  pub ids : Unique token_id tokens
  pub digests : Unique token_digest tokens
  pub held : All (HasSession sessions) tokens
  pub one : (session_id : ℕ) → count (open_token session_id) tokens ≤ 1

pub Chained-sessions :
    (sessions sessions' : List AuthSession) (tokens : List RefreshToken)
    → Keeps LaterSession session_id_is sessions sessions'
    → Chained sessions tokens
    → Chained sessions' tokens
Chained-sessions sessions sessions' tokens kept c = record {
  ids = c.ids;
  digests = c.digests;
  one = c.one;
  held =
      All-map (HasSession sessions) (HasSession sessions') tokens
        (λ x h. elim (Option-cases (find (session_id_is x.session_id) sessions)) [
          | inl e ↦ absurd (ground (arith, h, e))
          | inr (s, e) ↦ rw ((kept x.session_id s e).found) refl
        ])
        c.held;
}

pub Chained-revoke :
    (now : ℕ) (reason : Reason) (p : RefreshToken → Bool) (sessions : List AuthSession)
    (tokens : List RefreshToken)
    → Chained sessions tokens
    → Chained sessions (update p (revoke_token now reason) tokens)
Chained-revoke now reason p sessions tokens c = record {
  ids = Unique-update token_id p (revoke_token now reason) tokens (λ x. refl) c.ids;
  digests = Unique-update token_digest p (revoke_token now reason) tokens (λ x. refl) c.digests;
  held = All-update (HasSession sessions) p (revoke_token now reason) tokens (λ x t h. h) c.held;
  one = λ session_id.
      rw (count-update (open_token session_id) p (revoke_token now reason) tokens (λ x. refl))
        (c.one session_id);
}

pub Chained-consume :
    (now id : ℕ) (p : RefreshToken → Bool) (sessions : List AuthSession)
    (tokens : List RefreshToken)
    → Chained sessions tokens
    → Chained sessions (update p (consume now id) tokens)
Chained-consume now id p sessions tokens c = record {
  ids = Unique-update token_id p (consume now id) tokens (λ x. refl) c.ids;
  digests = Unique-update token_digest p (consume now id) tokens (λ x. refl) c.digests;
  held = All-update (HasSession sessions) p (consume now id) tokens (λ x t h. h) c.held;
  one = λ session_id. omega (
    arith,
    c.one session_id,
    count-update-le (open_token session_id) p (consume now id) tokens (λ x. ground arith),
  );
}

no_token :
    (sessions : List AuthSession) (session_id : ℕ) (tokens : List RefreshToken)
    → find (session_id_is session_id) sessions ≡ none
    → All (HasSession sessions) tokens
    → All (λ x. open_token session_id x ≡ false) tokens
no_token sessions session_id tokens h held =
    All-map (HasSession sessions) (λ x. open_token session_id x ≡ false) tokens
      (λ x s. elim (Bool-cases (x.session_id == session_id)) [
        | inl e ↦ absurd (ground (arith, s, h, e))
        | inr e ↦ rw e refl
      ])
      held

-- A new token of a session that had no open one.
pub Chained-append :
    (sessions : List AuthSession) (tokens : List RefreshToken) (new : RefreshToken)
    → find (token_id_is new.id) tokens ≡ none
    → find (digest_is new.token_digest) tokens ≡ none
    → HasSession sessions new
    → count (open_token new.session_id) tokens ≡ 0
    → Chained sessions tokens
    → Chained sessions (tokens ++ new ∷ [])
unfolding count
Chained-append sessions tokens new i d s zero c = record {
  ids = Unique-append token_id tokens new c.ids i;
  digests = Unique-append token_digest tokens new c.digests d;
  held = All-append (HasSession sessions) tokens (new ∷ []) c.held (s, tt);
  one = λ session_id. elim (Bool-cases (new.session_id == session_id)) [
    | inl e ↦ omega (
      arith,
      count-append (open_token session_id) tokens (new ∷ []),
      at_most session_id,
      same session_id e,
    )
    | inr e ↦ omega (
      arith,
      count-append (open_token session_id) tokens (new ∷ []),
      c.one session_id,
      other session_id e,
    )
  ];
}
  where
    at_most : (k : ℕ) → count (open_token k) (new ∷ []) ≤ 1
    at_most k = ground arith

    same : (k : ℕ) → (new.session_id == k) ≡ true → count (open_token k) tokens ≡ 0
    same k e = rw (← (==_iff new.session_id k).0 e) zero

    other : (k : ℕ) → (new.session_id == k) ≡ false → count (open_token k) (new ∷ []) ≡ 0
    other k e = rw e refl

pub fresh_token :
    (id digest : ℕ) (db : Db)
    → token_taken id digest db ≡ false
    → (find (token_id_is id) db.refresh_tokens ≡ none)
      × (find (digest_is digest) db.refresh_tokens ≡ none)
fresh_token id digest db h = elim (Option-cases (find (token_id_is id) db.refresh_tokens)) [
  | inr (x, e) ↦ absurd (ground (arith, h, e))
  | inl e ↦ elim (Option-cases (find (digest_is digest) db.refresh_tokens)) [
    | inr (y, e') ↦ absurd (ground (arith, h, e, e'))
    | inl e' ↦ (e, e')
  ]
]

abbrev pub Chain : Db → Type 0
Chain db = Chained db.sessions db.refresh_tokens

pub open_session-Chain :
    (service : AuthService) (drawn : Drawn) (now : ℕ) (replacement : Option ℕ) (user : User)
    (db : Db)
    → find (session_id_is drawn.session_id) db.sessions ≡ none
    → token_taken drawn.token_id (service.tokens.sha256 drawn.refresh_plaintext) db ≡ false
    → Keeps LaterSession session_id_is db.sessions
        (open_session service drawn now replacement user db).1.sessions
    → Chain db
    → Chain (open_session service drawn now replacement user db).1
unfolding open_session find
open_session-Chain service drawn now replacement user db s t kept c =
    let fresh = fresh_token drawn.token_id (service.tokens.sha256 drawn.refresh_plaintext) db t in
    Chained-append _ db.refresh_tokens _ fresh.0 fresh.1
      (rw (find-append (session_id_is drawn.session_id) db.sessions, s, ==_refl drawn.session_id)
        refl)
      (count-none (open_token drawn.session_id) db.refresh_tokens
        (no_token db.sessions drawn.session_id db.refresh_tokens s c.held))
      (Chained-sessions db.sessions _ db.refresh_tokens kept c)

-- Nothing is open any more once the open token was consumed.
pub count-consumed :
    (now id session_id : ℕ) (row : RefreshToken) (tokens : List RefreshToken)
    → count (open_token session_id) tokens ≤ 1
    → find (token_id_is row.id) tokens ≡ some row
    → open_token session_id row ≡ true
    → count (open_token session_id) (update (token_id_is row.id) (consume now id) tokens) ≡ 0
count-consumed now id session_id row tokens one f o = omega (
  arith,
  one,
  count-update-lt (open_token session_id) (token_id_is row.id) (consume now id) tokens row
      (λ x. ground arith) f o,
)
