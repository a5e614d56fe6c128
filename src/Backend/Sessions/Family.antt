-- ===== src/Backend/Sessions/Family.antt =====
-- What a session promises to the holder of its refresh token, without the tables: a family that is
-- closed, or is live with the one digest that may be presented next.
use wi_fi_test_orchestrator.Prelude.{
  ℕ, not, ◌&&◌, Bool, true, false, Option, none, some, List, ◌==◌, leb, is_none, if◌then◌else◌,
}
use wi_fi_test_orchestrator.Prelude.Table.{find}
use wi_fi_test_orchestrator.Backend.Access.{User, AuthSession, RefreshToken, Db, user_id_is}
use wi_fi_test_orchestrator.Backend.Sessions.{session_id_is, invalid_family}

pub data Family : Type 0 where
  closed : Family
  live : ℕ → Family

-- The presented digest is exchanged for a new one or closes the family.
unfoldable pub present : ℕ → ℕ → Family → Bool × Family
present presented new closed = (false, closed)
present presented new (live digest) =
    if presented == digest then (true, live new) else (false, closed)

-- A token of the session that can still be exchanged.
abbrev pub usable : ℕ → ℕ → RefreshToken → Bool
usable now session_id token =
    token.session_id == session_id
    && is_none token.consumed_at
    && is_none token.revoked_at
    && not (leb token.expires_at now)

abbrev pub view_token : Option RefreshToken → Family
view_token none = closed
view_token (some token) = live token.token_digest

abbrev pub view_user : ℕ → ℕ → List RefreshToken → AuthSession → Option User → Family
view_user now session_id tokens session none = closed
view_user now session_id tokens session (some user) =
    if invalid_family now session user
    then closed
    else view_token (find (usable now session_id) tokens)

abbrev pub view_session : ℕ → ℕ → Db → Option AuthSession → Family
view_session now session_id db none = closed
view_session now session_id db (some session) =
    view_user now session_id db.refresh_tokens session (find (user_id_is session.user_id) db.users)

-- The family that a session of the tables stands for at a time.
abbrev pub view : ℕ → ℕ → Db → Family
view now session_id db =
    view_session now session_id db (find (session_id_is session_id) db.sessions)
