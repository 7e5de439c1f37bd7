-- ===== src/Tests/Resets.antt =====
-- A run of the password reset, with hash functions that do nothing.
use aether_ai_workspace.Base.{ℕ, ◌≡◌, refl, none, some, [], ◌∷◌, Text, codes, text_eq}
use aether_ai_workspace.PasswordReset.{
  ResetStore, ResetDraw, get_by_token_hash, reset_found, reset_password,
}
use aether_ai_workspace.PasswordReset.SingleUse.{
  request, HasNoSession, reset_steps, reset_password-single_use,
}

abbrev same : Text → Text
same raw = raw

abbrev accounts : ResetStore
accounts = record {
  users =
      record {
        id = 5;
        email = codes "a@b.c";
        display_name = codes "A";
        password_hash = some (codes "old");
        status = codes "active";
        created_at = 0;
        updated_at = 0;
      }
      ∷ [];
  reset_tokens =
      record {
        id = 1;
        user_id = 5;
        token_hash = codes "tok";
        expires_at = 100;
        consumed_at = none;
        created_at = 0;
      }
      ∷ [];
  sessions =
      record {
        id = 2;
        user_id = 5;
        family_id = 3;
        token_hash = codes "r";
        device_fingerprint = codes "phone";
        used_at = none;
        successor_id = none;
        expires_at = 1000;
        revoked_at = none;
        created_at = 0;
      }
      ∷ [];
  outbox = [];
  completed = [];
}

abbrev draw : ℕ → ResetDraw
draw n = record {
  now = n;
  now_consume = n;
  now_revoke = n;
  raw_token = codes "tok2";
  token_id = 10;
  event_id = 11;
}

reset_password-single_use_example :
    HasNoSession 5
      (reset_password same same text_eq (codes "tok") (codes "new") (draw 50) accounts).1.sessions
    × ((reset_password same same text_eq (codes "tok") (codes "newer") (draw 70) (
          reset_steps same same text_eq
            (request (codes "a@b.c") (draw 60) ∷ [])
            (reset_password same same text_eq (codes "tok") (codes "new") (draw 50) accounts).1)).0
        ≡ none)
unfolding reset_password get_by_token_hash reset_found text_eq
reset_password-single_use_example =
    reset_password-single_use same same text_eq (codes "tok") (codes "new") (codes "newer")
      (draw 50) (draw 70) accounts 5 (request (codes "a@b.c") (draw 60) ∷ []) refl
