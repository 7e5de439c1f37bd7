-- ===== src/Sessions/Families.antt =====
-- A family of refresh tokens that was revoked stays revoked.
use aether_ai_workspace.Base.{
  ◌+◌, ◌≡◌, refl, sym, ◌∙◌, ap, Bool, true, false, ◌&&◌, ◌||◌, none, some, List, [], ◌∷◌, Text,
  text_eq, ◌==◌, leb, is_none, is_some, Bool-cases, Option-cases, inl, inr, arith, All, All-append,
  ==_refl,
}
use aether_ai_workspace.Domain.Entities.{Uuid, Instant, RefreshToken}
use aether_ai_workspace.Sessions.{
  seconds, get_by_hash, update_where, with_used, with_revoked, mark_used, revoke_family,
  revoke_all_for_user, create, RefreshSessionCommand, refreshed, invalid_refresh_token,
  refresh_token_reused, Settings, Draw, rotate, reuse, refresh_found, refresh_session,
  revoke_presented, revoke_user_sessions, SessionStep, refresh, logout, revoke_user, session_step,
  session_steps,
}

-- No row of the family is unrevoked.
abbrev pub IsDead : Uuid → List RefreshToken → Type 0
IsDead f = All (λ t. (t.family_id == f) && is_none t.revoked_at ≡ false)

update_where-IsDead :
    (f : Uuid) (condition : RefreshToken → Bool) (set : RefreshToken → RefreshToken)
    (ts : List RefreshToken)
    → ((t : RefreshToken)
        → (t.family_id == f) && is_none t.revoked_at ≡ false
        → ((set t).family_id == f) && is_none (set t).revoked_at ≡ false)
    → IsDead f ts
    → IsDead f (update_where condition set ts)
unfolding update_where
update_where-IsDead f condition set [] keeps h = tt
update_where-IsDead f condition set (t ∷ ts) keeps h =
    let rest = update_where-IsDead f condition set ts keeps h.1 in
    elim (Bool-cases (condition t)) [
      | inl hit ↦ rw hit (keeps t h.0, rest)
      | inr miss ↦ rw miss (h.0, rest)
    ]

revoke_family-IsDead :
    (f : Uuid) (now : Instant) (ts : List RefreshToken) → IsDead f (revoke_family f now ts)
unfolding revoke_family update_where
revoke_family-IsDead f now [] = tt
revoke_family-IsDead f now (t ∷ ts) =
    let rest = revoke_family-IsDead f now ts in
    elim (Bool-cases ((t.family_id == f) && is_none t.revoked_at)) [
      | inl hit ↦ rw hit (ground arith, rest)
      | inr miss ↦ rw miss (miss, rest)
    ]

revoked-keeps :
    (f : Uuid) (now : Instant) (t : RefreshToken)
    → (t.family_id == f) && is_none t.revoked_at ≡ false
    → (t.family_id == f) && is_none (with_revoked now t).revoked_at ≡ false
revoked-keeps f now t h = ground arith

-- What holds of all rows holds of the one that was found.
get_by_hash-dead :
    (f : Uuid) (h : Text) (ts : List RefreshToken) (t : RefreshToken)
    → get_by_hash h ts ≡ some t
    → IsDead f ts
    → (t.family_id == f) && is_none t.revoked_at ≡ false
unfolding get_by_hash
get_by_hash-dead f h [] t e d = absurd (cc e)
get_by_hash-dead f h (x ∷ ts) t e d = elim (Bool-cases (text_eq x.token_hash h)) [
  | inl here ↦
      let found : some x ≡ some t = sym (rw here refl) ∙ e in
      let same : x ≡ t = cc in rw (sym same) d.0
  | inr other ↦
      let later : get_by_hash h ts ≡ some t = sym (rw other refl) ∙ e in
      get_by_hash-dead f h ts t later d.1
]

module _ (settings : Settings) where
  reuse-IsDead :
      (f : Uuid) (c : RefreshSessionCommand) (d : Draw) (t : RefreshToken) (used_at : Instant)
      (ts : List RefreshToken)
      → IsDead f ts
      → IsDead f (reuse settings c d t used_at ts).1
  unfolding reuse revoke_family
  reuse-IsDead f c d t used_at ts h =
      elim (Bool-cases (
        leb d.now (used_at + seconds settings.grace_seconds)
        && text_eq c.device_fingerprint t.device_fingerprint
        && is_some t.successor_id)) [
          | inl benign ↦ rw (reuse, benign) h
          | inr theft ↦
              rw (reuse, theft)
                (update_where-IsDead f _ (with_revoked d.now) ts (revoked-keeps f d.now) h)
        ]

  refresh_found-IsDead :
      (f : Uuid) (c : RefreshSessionCommand) (d : Draw) (t : RefreshToken) (ts : List RefreshToken)
      → (t.family_id == f) && is_none t.revoked_at ≡ false
      → IsDead f ts
      → IsDead f (refresh_found settings c d t ts).1
  unfolding refresh_found
  refresh_found-IsDead f c d t ts own h =
      elim (Bool-cases (is_some t.revoked_at || leb t.expires_at d.now)) [
        | inl dead ↦ rw (refresh_found, dead) h
        | inr alive ↦ elim (Option-cases t.used_at) [
          | inl fresh ↦
              let other : (t.family_id == f) && true ≡ false = ground arith in
              rw (refresh_found, alive, fresh)
                (unfold rotate mark_used create in
                  update_where-IsDead f _ (with_used d.successor_id d.now) _ (λ t h. h)
                    (All-append _ ts _ h (other, tt)))
          | inr (at, used) ↦ rw (refresh_found, alive, used) (reuse-IsDead f c d t at ts h)
        ]
      ]

  session_step-IsDead :
      (f : Uuid) (step : SessionStep) (ts : List RefreshToken)
      → IsDead f ts
      → IsDead f (session_step settings step ts)
  unfolding session_step refresh_session revoke_presented
  session_step-IsDead f (refresh c d) ts h =
      elim (Option-cases (get_by_hash (settings.hash c.raw_refresh_token) ts)) [
        | inl e ↦ rw (session_step, refresh_session, e) h
        | inr (t, e) ↦
            rw (session_step, refresh_session, e)
              (refresh_found-IsDead f c d t ts (get_by_hash-dead f _ ts t e h) h)
      ]
  session_step-IsDead f (logout c now) ts h = elim (Option-cases c.raw_refresh_token) [
    | inl e ↦ rw (session_step, revoke_presented, e) h
    | inr (raw, e) ↦ elim (Option-cases (get_by_hash (settings.hash raw) ts)) [
      | inl e' ↦ rw (session_step, revoke_presented, e, e') h
      | inr (t, e') ↦
          rw (session_step, revoke_presented, e, e')
            (unfold revoke_family in
              update_where-IsDead f _ (with_revoked now) ts (revoked-keeps f now) h)
    ]
  ]
  session_step-IsDead f (revoke_user user_id now) ts h =
      unfold revoke_user_sessions revoke_all_for_user in
      update_where-IsDead f _ (with_revoked now) ts (revoked-keeps f now) h

  session_steps-IsDead :
      (f : Uuid) (steps : List SessionStep) (ts : List RefreshToken)
      → IsDead f ts
      → IsDead f (session_steps settings steps ts)
  unfolding session_steps
  session_steps-IsDead f [] ts h = h
  session_steps-IsDead f (step ∷ steps) ts h =
      session_steps-IsDead f steps (session_step settings step ts) (session_step-IsDead f step ts h)

  -- A presented token whose reuse is answered as theft leaves its family dead.
  theft-IsDead :
      (c : RefreshSessionCommand) (d : Draw) (ts : List RefreshToken) (t : RefreshToken)
      → get_by_hash (settings.hash c.raw_refresh_token) ts ≡ some t
      → (refresh_session settings c d ts).0 ≡ refresh_token_reused
      → IsDead t.family_id (refresh_session settings c d ts).1
  unfolding refresh_session refresh_found reuse rotate
  theft-IsDead c d ts t e reused =
      let outer : refresh_session settings c d ts ≡ refresh_found settings c d t ts =
        rw (refresh_session, e) refl in
      elim (Bool-cases (is_some t.revoked_at || leb t.expires_at d.now)) [
        | inl dead ↦
            let r : refresh_found settings c d t ts ≡ (invalid_refresh_token, ts) =
              rw (refresh_found, dead) refl in
            let clash : invalid_refresh_token ≡ refresh_token_reused =
              sym (ap (λ x. x.0) (outer ∙ r)) ∙ reused in
            absurd (cc clash)
        | inr alive ↦ elim (Option-cases t.used_at) [
          | inl fresh ↦
              let r : refresh_found settings c d t ts ≡ rotate settings c d t ts =
                rw (refresh_found, alive, fresh) refl in
              let clash = sym (ap (λ x. x.0) (outer ∙ r)) ∙ reused in absurd (cc clash)
          | inr (at, used) ↦
              elim (Bool-cases (
                leb d.now (at + seconds settings.grace_seconds)
                && text_eq c.device_fingerprint t.device_fingerprint
                && is_some t.successor_id)) [
                  | inl benign ↦
                      let r : refresh_found settings c d t ts ≡ reuse settings c d t at ts =
                        rw (refresh_found, alive, used) refl in
                      let b : reuse settings c d t at ts ≡ (
                        refreshed (record {
                          user_id = t.user_id;
                          access_token = settings.issue_access_token t.user_id d.jti;
                          refresh_token = none;
                        }),
                        ts,
                      ) =
                        rw (reuse, benign) refl in
                      let clash = sym (ap (λ x. x.0) (outer ∙ r ∙ b)) ∙ reused in absurd (cc clash)
                  | inr theft ↦
                      rw (refresh_session, e, refresh_found, alive, used, reuse, theft)
                        (revoke_family-IsDead t.family_id d.now ts)
                ]
        ]
      ]

  -- After a refresh that is answered as theft, and any refreshes, logouts and revocations of any
  -- tokens, every token of the same family, those minted in between included, is refused as invalid.
  pub refresh_session-kills_family :
      (c c' : RefreshSessionCommand) (d d' : Draw) (ts : List RefreshToken) (t t' : RefreshToken)
      (steps : List SessionStep)
      → get_by_hash (settings.hash c.raw_refresh_token) ts ≡ some t
      → (refresh_session settings c d ts).0 ≡ refresh_token_reused
      → get_by_hash
          (settings.hash c'.raw_refresh_token)
          (session_steps settings steps (refresh_session settings c d ts).1)
        ≡ some t'
      → t'.family_id ≡ t.family_id
      → (refresh_session settings c' d'
          (session_steps settings steps (refresh_session settings c d ts).1)).0
        ≡ invalid_refresh_token
  unfolding refresh_session refresh_found
  refresh_session-kills_family c c' d d' ts t t' steps e reused e' same =
      let after = session_steps settings steps (refresh_session settings c d ts).1 in
      let dead =
        get_by_hash-dead t.family_id _ after t' e'
          (session_steps-IsDead t.family_id steps _ (theft-IsDead c d ts t e reused)) in
      let gone : is_some t'.revoked_at || leb t'.expires_at d'.now ≡ true =
        ground (arith, ==_refl t.family_id) in
      rw (refresh_session, e', refresh_found, gone) refl
