-- ===== src/Tests/Tokens.antt =====
-- Runs of the refresh of sessions, with a hash function that does nothing.
use aether_ai_workspace.Base.{ℕ, ◌≡◌, refl, Option, none, some, List, [], ◌∷◌, Text, codes, text_eq}
use aether_ai_workspace.Domain.Entities.{RefreshToken}
use aether_ai_workspace.Sessions.{
  get_by_hash, update_where, revoke_family, RefreshSessionCommand, invalid_refresh_token, Settings,
  Draw, rotate, reuse, refresh_found, refresh_session, refresh, revoke_user, revoke_user_sessions,
  revoke_all_for_user, session_step, session_steps,
}
use aether_ai_workspace.Sessions.Spent.{new_token, refresh_session-rotates_once}
use aether_ai_workspace.Sessions.Families.{refresh_session-kills_family}

abbrev settings : Settings
settings = record {
  hash = λ raw. raw;
  issue_access_token = λ user jti. user ∷ jti ∷ [];
  refresh_ttl_seconds = 3600;
  grace_seconds = 30;
}

abbrev token : Text → Option ℕ → RefreshToken
token h used_at = record {
  id = 1;
  user_id = 5;
  family_id = 3;
  token_hash = h;
  device_fingerprint = codes "phone";
  used_at = used_at;
  successor_id = none;
  expires_at = 1000000000;
  revoked_at = none;
  created_at = 0;
}

abbrev present : Text → RefreshSessionCommand
present raw = record { raw_refresh_token = raw; device_fingerprint = codes "phone" }

abbrev draw : ℕ → Draw
draw now = record { now = now; raw_successor = codes "b"; successor_id = 2; jti = 9 }

abbrev fresh : List RefreshToken
fresh = token (codes "a") none ∷ []

refresh_session-rotates_once_example :
    new_token settings
      (refresh_session settings (present (codes "a")) (draw 60) (
        session_steps settings
          (refresh (present (codes "b")) (draw 50) ∷ [])
          (refresh_session settings (present (codes "a")) (draw 40) fresh).1)).0
    ≡ none
unfolding refresh_session get_by_hash refresh_found rotate text_eq
refresh_session-rotates_once_example =
    refresh_session-rotates_once settings (present (codes "a")) (present (codes "a")) (draw 40)
      (draw 60) fresh (codes "b") (refresh (present (codes "b")) (draw 50) ∷ []) refl refl

abbrev used : List RefreshToken
used = token (codes "a") (some 1) ∷ token (codes "b") none ∷ []

refresh_session-kills_family_example :
    (refresh_session settings (present (codes "b")) (draw 60) (
      session_steps settings
        (revoke_user 77 55 ∷ [])
        (refresh_session settings (present (codes "a")) (draw 50) used).1)).0
    ≡ invalid_refresh_token
unfolding refresh_session get_by_hash refresh_found reuse text_eq revoke_family update_where
    session_steps session_step revoke_user_sessions revoke_all_for_user
refresh_session-kills_family_example =
    refresh_session-kills_family settings (present (codes "a")) (present (codes "b")) (draw 50)
      (draw 60) used (token (codes "a") (some 1))
      (record (token (codes "b") none) { revoked_at = some 50 }) (revoke_user 77 55 ∷ []) refl refl
      refl refl
