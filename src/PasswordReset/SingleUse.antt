-- ===== src/PasswordReset/SingleUse.antt =====
-- A reset token works once, and a reset ends the user's sessions.
use aether_ai_workspace.Base.{
  ◌≡◌, refl, sym, ◌∙◌, Bool, true, false, ◌&&◌, ◌||◌, none, some, List, [], ◌∷◌, ◌++◌, Text,
  text_eq, ◌==◌, leb, is_none, is_some, Bool-cases, Option-cases, inl, inr, arith, All,
}
use aether_ai_workspace.Domain.Entities.{Uuid, Instant, PasswordResetToken, RefreshToken}
use aether_ai_workspace.Sessions.{update_where, revoke_all_for_user, revoke_user_sessions}
use aether_ai_workspace.PasswordReset.{
  ResetStore, get_by_token_hash, consume, get_by_email, ResetDraw, request_for,
  request_password_reset, reset_with, reset_found, reset_password,
}

-- The row of this hash is there and was consumed.
abbrev pub IsConsumed : Text → List PasswordResetToken → Type 0
IsConsumed h ts =
    (t : PasswordResetToken) × (get_by_token_hash h ts ≡ some t) × (is_some t.consumed_at ≡ true)

append-IsConsumed :
    (h : Text) (ts new : List PasswordResetToken) → IsConsumed h ts → IsConsumed h (ts ++ new)
unfolding get_by_token_hash
append-IsConsumed h [] new (t, e, r) = absurd (cc e)
append-IsConsumed h (x ∷ ts) new (t, e, r) = elim (Bool-cases (text_eq x.token_hash h)) [
  | inl here ↦ rw here (t, sym (rw here refl) ∙ e, r)
  | inr other ↦
      let later : get_by_token_hash h ts ≡ some t = sym (rw other refl) ∙ e in
      rw other (append-IsConsumed h ts new (t, later, r))
]

consume-keeps :
    (h : Text) (token_id : Uuid) (now : Instant) (ts : List PasswordResetToken)
    → IsConsumed h ts
    → IsConsumed h (consume token_id now ts)
unfolding get_by_token_hash consume
consume-keeps h token_id now [] (t, e, r) = absurd (cc e)
consume-keeps h token_id now (x ∷ ts) (t, e, r) = elim (Bool-cases (text_eq x.token_hash h)) [
  | inl here ↦
      let found : some x ≡ some t = sym (rw here refl) ∙ e in
      let same : x ≡ t = cc in
      let r' : is_some x.consumed_at ≡ true = rw same r in
      elim (Bool-cases (x.id == token_id)) [
        | inl hit ↦ rw (hit, here) (record x { consumed_at = some now }, refl, refl)
        | inr miss ↦ rw (miss, here) (x, refl, r')
      ]
  | inr other ↦
      let later : get_by_token_hash h ts ≡ some t = sym (rw other refl) ∙ e in
      let ih = consume-keeps h token_id now ts (t, later, r) in
      elim (Bool-cases (x.id == token_id)) [
        | inl hit ↦ rw (hit, other) ih
        | inr miss ↦ rw (miss, other) ih
      ]
]

consume-IsConsumed :
    (h : Text) (t : PasswordResetToken) (now : Instant) (ts : List PasswordResetToken)
    → get_by_token_hash h ts ≡ some t
    → IsConsumed h (consume t.id now ts)
unfolding get_by_token_hash consume
consume-IsConsumed h t now [] e = absurd (cc e)
consume-IsConsumed h t now (x ∷ ts) e = elim (Bool-cases (text_eq x.token_hash h)) [
  | inl here ↦
      let found : some x ≡ some t = sym (rw here refl) ∙ e in
      let same : x.id ≡ t.id = cc in
      let hit : (x.id == t.id) ≡ true = ground arith in
      rw (hit, here) (record x { consumed_at = some now }, refl, refl)
  | inr other ↦
      let later : get_by_token_hash h ts ≡ some t = sym (rw other refl) ∙ e in
      let ih = consume-IsConsumed h t now ts later in
      elim (Bool-cases (x.id == t.id)) [
        | inl hit ↦ rw (hit, other) ih
        | inr miss ↦ rw (miss, other) ih
      ]
]

-- The requests and the attempts to reset.
pub data ResetStep : Type 0 where
  request : Text → ResetDraw → ResetStep
  reset : (raw_token new_password : Text) → ResetDraw → ResetStep

-- The user has no session left that is not revoked.
abbrev pub HasNoSession : Uuid → List RefreshToken → Type 0
HasNoSession u = All (λ t. (t.user_id == u) && is_none t.revoked_at ≡ false)

revoke_all-HasNoSession :
    (u : Uuid) (now : Instant) (ts : List RefreshToken)
    → HasNoSession u (revoke_user_sessions u now ts)
unfolding revoke_user_sessions revoke_all_for_user update_where
revoke_all-HasNoSession u now [] = tt
revoke_all-HasNoSession u now (t ∷ ts) =
    let rest = revoke_all-HasNoSession u now ts in
    elim (Bool-cases ((t.user_id == u) && is_none t.revoked_at)) [
      | inl hit ↦ rw hit (ground arith, rest)
      | inr miss ↦ rw miss (miss, rest)
    ]

module _ (hash : Text → Text) (hash_password : Text → Text) (same_email : Text → Text → Bool) where
  unfoldable pub reset_step : ResetStep → ResetStore → ResetStore
  unfolding request_password_reset reset_password
  reset_step (request email d) s = request_password_reset hash hash_password same_email email d s
  reset_step (reset raw_token new_password d) s =
      (reset_password hash hash_password same_email raw_token new_password d s).1

  unfoldable pub reset_steps : List ResetStep → ResetStore → ResetStore
  unfolding reset_step
  reset_steps [] s = s
  reset_steps (step ∷ steps) s = reset_steps steps (reset_step step s)

  reset_found-keeps :
      (h new_password : Text) (d : ResetDraw) (t : PasswordResetToken) (s : ResetStore)
      → IsConsumed h s.reset_tokens
      → IsConsumed h (reset_found hash hash_password same_email new_password d t s).1.reset_tokens
  unfolding reset_found reset_with
  reset_found-keeps h new_password d t s r =
      elim (Bool-cases (is_some t.consumed_at || leb t.expires_at d.now)) [
        | inl dead ↦ rw (reset_found, dead) r
        | inr alive ↦ rw (reset_found, alive) (consume-keeps h t.id d.now_consume s.reset_tokens r)
      ]

  reset_step-IsConsumed :
      (h : Text) (step : ResetStep) (s : ResetStore)
      → IsConsumed h s.reset_tokens
      → IsConsumed h (reset_step step s).reset_tokens
  unfolding reset_step request_password_reset request_for reset_password
  reset_step-IsConsumed h (request email d) s r =
      elim (Option-cases (get_by_email same_email email s.users)) [
        | inl e ↦ rw (reset_step, request_password_reset, e) r
        | inr (u, e) ↦ elim (Option-cases u.password_hash) [
          | inl e' ↦ rw (reset_step, request_password_reset, e, request_for, e') r
          | inr (p, e') ↦
              rw (reset_step, request_password_reset, e, request_for, e')
                (append-IsConsumed h s.reset_tokens _ r)
        ]
      ]
  reset_step-IsConsumed h (reset raw_token new_password d) s r =
      elim (Option-cases (get_by_token_hash (hash raw_token) s.reset_tokens)) [
        | inl e ↦ rw (reset_step, reset_password, e) r
        | inr (t, e) ↦ rw (reset_step, reset_password, e) (reset_found-keeps h new_password d t s r)
      ]

  reset_steps-IsConsumed :
      (h : Text) (steps : List ResetStep) (s : ResetStore)
      → IsConsumed h s.reset_tokens
      → IsConsumed h (reset_steps steps s).reset_tokens
  unfolding reset_steps
  reset_steps-IsConsumed h [] s r = r
  reset_steps-IsConsumed h (step ∷ steps) s r =
      reset_steps-IsConsumed h steps (reset_step step s) (reset_step-IsConsumed h step s r)

  consumed-refused :
      (raw_token new_password : Text) (d : ResetDraw) (s : ResetStore)
      → IsConsumed (hash raw_token) s.reset_tokens
      → (reset_password hash hash_password same_email raw_token new_password d s).0 ≡ none
  unfolding reset_password reset_found
  consumed-refused raw_token new_password d s (t, e, r) =
      let dead : is_some t.consumed_at || leb t.expires_at d.now ≡ true = ground arith in
      rw (reset_password, e, reset_found, dead) refl

  -- What a reset that succeeds leaves: its token consumed, and its user without a session.
  reset-effects :
      (raw_token new_password : Text) (d : ResetDraw) (s : ResetStore) (u : Uuid)
      → (reset_password hash hash_password same_email raw_token new_password d s).0 ≡ some u
      → IsConsumed
          (hash raw_token)
          (reset_password hash hash_password same_email raw_token new_password d s).1.reset_tokens
        × HasNoSession u
            (reset_password hash hash_password same_email raw_token new_password d s).1.sessions
  unfolding reset_password reset_found reset_with
  reset-effects raw_token new_password d s u done =
      elim (Option-cases (get_by_token_hash (hash raw_token) s.reset_tokens)) [
        | inl e ↦
            let answer : (reset_password hash hash_password same_email raw_token new_password d s).0
                ≡ none =
              rw (reset_password, e) refl in
            let clash : none ≡ some u = sym answer ∙ done in absurd (cc clash)
        | inr (t, e) ↦ elim (Bool-cases (is_some t.consumed_at || leb t.expires_at d.now)) [
          | inl dead ↦
              let answer : (reset_password hash hash_password same_email raw_token new_password d
                    s).0
                  ≡ none =
                rw (reset_password, e, reset_found, dead) refl in
              let clash : none ≡ some u = sym answer ∙ done in absurd (cc clash)
          | inr alive ↦
              let answer : (reset_password hash hash_password same_email raw_token new_password d
                    s).0
                  ≡ some t.user_id =
                rw (reset_password, e, reset_found, alive) refl in
              let same : some t.user_id ≡ some u = sym answer ∙ done in
              let who : t.user_id ≡ u = cc in
              rw (reset_password, e, reset_found, alive)
                (
                  consume-IsConsumed (hash raw_token) t d.now_consume s.reset_tokens e,
                  rw (sym who) (revoke_all-HasNoSession t.user_id d.now_revoke s.sessions),
                )
        ]
      ]

  -- A reset that succeeds revokes every refresh token of its user; and after it, and any further
  -- requests and attempts to reset, the same reset token is refused.
  pub reset_password-single_use :
      (raw_token new_password new_password' : Text) (d d' : ResetDraw) (s : ResetStore) (u : Uuid)
      (steps : List ResetStep)
      → (reset_password hash hash_password same_email raw_token new_password d s).0 ≡ some u
      → HasNoSession u
          (reset_password hash hash_password same_email raw_token new_password d s).1.sessions
        × ((reset_password hash hash_password same_email raw_token new_password' d' (
              reset_steps steps
                (reset_password hash hash_password same_email raw_token new_password d s).1)).0
            ≡ none)
  reset_password-single_use raw_token new_password new_password' d d' s u steps done =
      let effects = reset-effects raw_token new_password d s u done in
      (
        effects.1,
        consumed-refused raw_token new_password' d' _
            (reset_steps-IsConsumed (hash raw_token) steps _ effects.0),
      )
