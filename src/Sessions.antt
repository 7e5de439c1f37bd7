-- ===== src/Sessions.antt =====
-- Refresh sessions, under apps/api/src/aether: app/auth/refresh_session.py, logout_user.py,
-- revoke_user_sessions.py and tokens.py over the table of
-- adapters/postgres/refresh_token_repository.py. The hash function, the signed access tokens and the
-- random tokens come from libraries: `hash` and `issue` are parameters, and a fresh token is an
-- argument. Each repository call is its own transaction, so a raised error keeps what came before.
pub mod Spent
pub mod Families
use aether_ai_workspace.Base.{
  ℕ, ◌-◌, ◌/◌, ◌+◌, ◌*◌, Bool, true, false, ◌&&◌, ◌||◌, Option, none, some, List, [], ◌∷◌, ◌++◌,
  Text, text_eq, ◌==◌, leb, is_none, is_some, if◌then◌else◌,
}
use aether_ai_workspace.Domain.Entities.{Uuid, Instant, RefreshToken}

abbrev pub seconds : ℕ → ℕ
seconds n = n * 1000000

unfoldable pub get_by_hash : Text → List RefreshToken → Option RefreshToken
get_by_hash token_hash [] = none
get_by_hash token_hash (t ∷ ts) =
    if text_eq t.token_hash token_hash then some t else get_by_hash token_hash ts

-- `UPDATE refresh_tokens SET ... WHERE ...`
unfoldable pub update_where :
    (RefreshToken → Bool) → (RefreshToken → RefreshToken) → List RefreshToken → List RefreshToken
update_where condition set [] = []
update_where condition set (t ∷ ts) =
    let rest = update_where condition set ts in if condition t then set t ∷ rest else t ∷ rest

abbrev pub with_used : Uuid → Instant → RefreshToken → RefreshToken
with_used successor_id used_at t = record t {
  used_at = some used_at;
  successor_id = some successor_id;
}

abbrev pub with_revoked : Instant → RefreshToken → RefreshToken
with_revoked revoked_at t = record t { revoked_at = some revoked_at }

unfoldable pub mark_used : Uuid → Uuid → Instant → List RefreshToken → List RefreshToken
unfolding update_where
mark_used token_id successor_id used_at ts =
    update_where (λ t. t.id == token_id) (with_used successor_id used_at) ts

unfoldable pub revoke_family : Uuid → Instant → List RefreshToken → List RefreshToken
unfolding update_where
revoke_family family_id revoked_at ts =
    update_where (λ t. t.family_id == family_id && is_none t.revoked_at) (with_revoked revoked_at)
      ts

unfoldable pub revoke_all_for_user : Uuid → Instant → List RefreshToken → List RefreshToken
unfolding update_where
revoke_all_for_user user_id revoked_at ts =
    update_where (λ t. t.user_id == user_id && is_none t.revoked_at) (with_revoked revoked_at) ts

-- `create`; the row that is inserted is the last one.
unfoldable pub create :
    Uuid → Uuid → Uuid → Text → Text → Instant → Instant → List RefreshToken → List RefreshToken
create id user_id family_id token_hash device_fingerprint expires_at now ts =
    ts
    ++ (record {
      id = id;
      user_id = user_id;
      family_id = family_id;
      token_hash = token_hash;
      device_fingerprint = device_fingerprint;
      used_at = none;
      successor_id = none;
      expires_at = expires_at;
      revoked_at = none;
      created_at = now;
    }
        ∷ [])

pub record RefreshSessionCommand : Type 0 where
  pub raw_refresh_token : Text
  pub device_fingerprint : Text

pub record RefreshResult : Type 0 where
  pub user_id : Uuid
  pub access_token : Text
  pub refresh_token : Option Text

pub data Answer : Type 0 where
  refreshed : RefreshResult → Answer
  invalid_refresh_token refresh_token_reused : Answer

-- The settings, and the library functions.
pub record Settings : Type 0 where
  pub hash : Text → Text
  pub issue_access_token : Uuid → Uuid → Text
  pub refresh_ttl_seconds : ℕ
  pub grace_seconds : ℕ

-- What a call draws: the time, new identifiers and a random token.
pub record Draw : Type 0 where
  pub now : Instant
  pub raw_successor : Text
  pub successor_id : Uuid
  pub jti : Uuid

pub record LogoutUserCommand : Type 0 where
  pub user_id : Uuid
  pub jti : Uuid
  pub access_token_expires_at : Instant
  pub raw_refresh_token : Option Text

module _ (settings : Settings) where
  -- The branch of a token that was not used yet.
  unfoldable pub rotate :
      RefreshSessionCommand → Draw → RefreshToken → List RefreshToken → Answer × List RefreshToken
  unfolding create mark_used
  rotate c d token ts = (
    refreshed (record {
      user_id = token.user_id;
      access_token = settings.issue_access_token token.user_id d.jti;
      refresh_token = some d.raw_successor;
    }),
    mark_used token.id d.successor_id d.now (
        create d.successor_id token.user_id token.family_id (settings.hash d.raw_successor)
          c.device_fingerprint (d.now + seconds settings.refresh_ttl_seconds) d.now ts),
  )

  -- The branch of a token that was used at `used_at`.
  unfoldable pub reuse :
      RefreshSessionCommand
      → Draw
      → RefreshToken
      → Instant
      → List RefreshToken
      → Answer × List RefreshToken
  unfolding revoke_family
  reuse c d token used_at ts =
      if leb d.now (used_at + seconds settings.grace_seconds)
        && text_eq c.device_fingerprint token.device_fingerprint
        && is_some token.successor_id
      then (
        refreshed (record {
          user_id = token.user_id;
          access_token = settings.issue_access_token token.user_id d.jti;
          refresh_token = none;
        }),
        ts,
      )
      else (refresh_token_reused, revoke_family token.family_id d.now ts)

  -- A token that was found: dead, fresh or used.
  unfoldable pub refresh_found :
      RefreshSessionCommand → Draw → RefreshToken → List RefreshToken → Answer × List RefreshToken
  unfolding rotate reuse
  refresh_found c d token ts =
      if is_some token.revoked_at || leb token.expires_at d.now
      then (invalid_refresh_token, ts)
      else elim token.used_at [
        | none ↦ rotate c d token ts
        | some used_at ↦ reuse c d token used_at ts
      ]

  -- `RefreshSession.execute`
  unfoldable pub refresh_session :
      RefreshSessionCommand → Draw → List RefreshToken → Answer × List RefreshToken
  unfolding get_by_hash refresh_found
  refresh_session c d ts = elim (get_by_hash (settings.hash c.raw_refresh_token) ts) [
    | none ↦ (invalid_refresh_token, ts)
    | some token ↦ refresh_found c d token ts
  ]

  -- What `LogoutUser.execute` does to the tokens' table.
  unfoldable pub revoke_presented :
      LogoutUserCommand → Instant → List RefreshToken → List RefreshToken
  unfolding get_by_hash revoke_family
  revoke_presented c now ts = elim c.raw_refresh_token [
    | none ↦ ts
    | some raw ↦ elim (get_by_hash (settings.hash raw) ts) [
      | none ↦ ts
      | some token ↦ revoke_family token.family_id now ts
    ]
  ]

-- The state that a logout changes: the tokens, the denied access tokens with the seconds that they
-- stay denied, and the audit log, of which this is the user of each `auth.logout` with the event's id.
pub record LogoutStore : Type 0 where
  pub tokens : List RefreshToken
  pub denied : List (Uuid × ℕ)
  pub logouts : List (Uuid × Uuid)

-- `max(int(remaining), 1)`
abbrev pub deny_seconds : Instant → Instant → ℕ
deny_seconds expires_at now =
    let remaining = (expires_at - now) / 1000000 in if leb 1 remaining then remaining else 1

-- `LogoutUser.execute`; the clock is read once for each write.
unfoldable pub logout_user :
    Settings
    → LogoutUserCommand
    → (now_deny now_revoke : Instant) → Uuid
    → LogoutStore
    → LogoutStore
unfolding revoke_presented
logout_user settings c now_deny now_revoke new_id s = record {
  tokens = revoke_presented settings c now_revoke s.tokens;
  denied = s.denied ++ ((c.jti, deny_seconds c.access_token_expires_at now_deny) ∷ []);
  logouts = s.logouts ++ ((new_id, c.user_id) ∷ []);
}

-- `RevokeUserSessions.execute`
unfoldable pub revoke_user_sessions : Uuid → Instant → List RefreshToken → List RefreshToken
unfolding revoke_all_for_user
revoke_user_sessions user_id now ts = revoke_all_for_user user_id now ts

-- The operations on the table.
pub data SessionStep : Type 0 where
  refresh : RefreshSessionCommand → Draw → SessionStep
  logout : LogoutUserCommand → Instant → SessionStep
  revoke_user : Uuid → Instant → SessionStep

module _ (settings : Settings) where
  unfoldable pub session_step : SessionStep → List RefreshToken → List RefreshToken
  unfolding refresh_session revoke_presented revoke_user_sessions
  session_step (refresh c d) ts = (refresh_session settings c d ts).1
  session_step (logout c now) ts = revoke_presented settings c now ts
  session_step (revoke_user user_id now) ts = revoke_user_sessions user_id now ts

  unfoldable pub session_steps : List SessionStep → List RefreshToken → List RefreshToken
  unfolding session_step
  session_steps [] ts = ts
  session_steps (s ∷ ss) ts = session_steps ss (session_step s ts)
