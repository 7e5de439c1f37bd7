-- ===== src/PasswordReset.antt =====
-- Password resets, under apps/api/src/aether: app/password_reset over the tables of
-- adapters/postgres/password_reset_token_repository.py and user_repository.py. The hash functions and
-- the database's comparison of e-mail addresses, which ignores case, are parameters; the random token
-- is an argument. Each repository call is its own transaction, and no step raises after the first
-- check.
pub mod SingleUse
use aether_ai_workspace.Base.{
  ℕ, ◌+◌, ◌*◌, Bool, true, false, ◌||◌, Option, none, some, List, [], ◌∷◌, ◌++◌, Text, codes,
  text_eq, ◌==◌, leb, is_some, if◌then◌else◌,
}
use aether_ai_workspace.Domain.Entities.{Uuid, Instant, User, PasswordResetToken, RefreshToken}
use aether_ai_workspace.Sessions.{seconds, revoke_user_sessions}

-- `timedelta(minutes=30)`
abbrev pub expiry : ℕ
expiry = seconds 1800

-- The event in the outbox; the mail's text is given by the raw token.
pub record MailEvent : Type 0 where
  pub id : Uuid
  pub aggregate_id : Uuid
  pub to : Text
  pub raw_token : Text

pub record ResetStore : Type 0 where
  pub users : List User
  pub reset_tokens : List PasswordResetToken
  pub sessions : List RefreshToken
  pub outbox : List MailEvent
  -- The users and the ids of the `auth.password_reset_completed` events.
  pub completed : List (Uuid × Uuid)

unfoldable pub get_by_token_hash : Text → List PasswordResetToken → Option PasswordResetToken
unfolding text_eq
get_by_token_hash h [] = none
get_by_token_hash h (t ∷ ts) = if text_eq t.token_hash h then some t else get_by_token_hash h ts

unfoldable pub consume : Uuid → Instant → List PasswordResetToken → List PasswordResetToken
consume token_id now [] = []
consume token_id now (t ∷ ts) =
    let rest = consume token_id now ts in
    if t.id == token_id then record t { consumed_at = some now } ∷ rest else t ∷ rest

unfoldable pub get_by_email : (Text → Text → Bool) → Text → List User → Option User
get_by_email same_email email [] = none
get_by_email same_email email (u ∷ us) =
    if same_email u.email email then some u else get_by_email same_email email us

unfoldable pub update_password_hash : Uuid → Text → Instant → List User → List User
update_password_hash user_id password_hash now [] = []
update_password_hash user_id password_hash now (u ∷ us) =
    let rest = update_password_hash user_id password_hash now us in
    if u.id == user_id
    then record u { password_hash = some password_hash; updated_at = now } ∷ rest
    else u ∷ rest

-- What a use case draws: its readings of the clock, new identifiers and a random token.
pub record ResetDraw : Type 0 where
  pub now : Instant
  pub now_consume : Instant
  pub now_revoke : Instant
  pub raw_token : Text
  pub token_id : Uuid
  pub event_id : Uuid

module _ (hash : Text → Text) (hash_password : Text → Text) (same_email : Text → Text → Bool) where
  -- The account that was found: one without a password is left alone.
  unfoldable pub request_for : ResetDraw → User → ResetStore → ResetStore
  request_for d user s = elim user.password_hash [
    | none ↦ s
    | some _ ↦ record s {
      reset_tokens =
          s.reset_tokens
          ++ (record {
            id = d.token_id;
            user_id = user.id;
            token_hash = hash d.raw_token;
            expires_at = d.now + expiry;
            consumed_at = none;
            created_at = d.now;
          }
              ∷ []);
      outbox =
          s.outbox
          ++ (record {
            id = d.event_id;
            aggregate_id = d.token_id;
            to = user.email;
            raw_token = d.raw_token;
          }
              ∷ []);
    }
  ]

  -- `RequestPasswordReset.execute`
  unfoldable pub request_password_reset : Text → ResetDraw → ResetStore → ResetStore
  unfolding get_by_email request_for
  request_password_reset email d s = elim (get_by_email same_email email s.users) [
    | none ↦ s
    | some user ↦ request_for d user s
  ]

  -- A reset by the token that was found, behind its checks.
  unfoldable pub reset_with : Text → ResetDraw → PasswordResetToken → ResetStore → ResetStore
  unfolding update_password_hash consume revoke_user_sessions
  reset_with new_password d token s = record s {
    users = update_password_hash token.user_id (hash_password new_password) d.now s.users;
    reset_tokens = consume token.id d.now_consume s.reset_tokens;
    sessions = revoke_user_sessions token.user_id d.now_revoke s.sessions;
    completed = s.completed ++ ((d.event_id, token.user_id) ∷ []);
  }

  unfoldable pub reset_found :
      Text → ResetDraw → PasswordResetToken → ResetStore → Option Uuid × ResetStore
  unfolding reset_with
  reset_found new_password d token s =
      if is_some token.consumed_at || leb token.expires_at d.now
      then (none, s)
      else (some token.user_id, reset_with new_password d token s)

  -- `ResetPassword.execute`; `none` is the InvalidPasswordResetTokenError.
  unfoldable pub reset_password : Text → Text → ResetDraw → ResetStore → Option Uuid × ResetStore
  unfolding get_by_token_hash reset_found
  reset_password raw_token new_password d s =
      elim (get_by_token_hash (hash raw_token) s.reset_tokens) [
        | none ↦ (none, s)
        | some token ↦ reset_found new_password d token s
      ]
