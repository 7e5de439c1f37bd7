-- ===== src/Sessions/Spent.antt =====
-- A refresh token is exchanged for a new one at most once.
use aether_ai_workspace.Base.{
  ◌+◌, ◌≡◌, refl, sym, ◌∙◌, Bool, true, false, ◌&&◌, ◌||◌, Option, none, some, List, [], ◌∷◌, ◌++◌,
  Text, text_eq, ◌==◌, leb, is_none, is_some, Bool-cases, Option-cases, inl, inr, arith,
}
use aether_ai_workspace.Domain.Entities.{Uuid, Instant, RefreshToken}
use aether_ai_workspace.Sessions.{
  seconds, get_by_hash, update_where, with_used, with_revoked, mark_used, revoke_family,
  revoke_all_for_user, create, RefreshSessionCommand, Answer, refreshed, Settings, Draw, rotate,
  reuse, refresh_found, refresh_session, revoke_presented, revoke_user_sessions, SessionStep,
  refresh, logout, revoke_user, session_step, session_steps,
}

-- The row of this hash is there and was used.
abbrev pub IsSpent : Text → List RefreshToken → Type 0
IsSpent h ts = (t : RefreshToken) × (get_by_hash h ts ≡ some t) × (is_none t.used_at ≡ false)

update_where-IsSpent :
    (h : Text) (condition : RefreshToken → Bool) (set : RefreshToken → RefreshToken)
    (ts : List RefreshToken)
    → ((t : RefreshToken) → (set t).token_hash ≡ t.token_hash)
    → ((t : RefreshToken) → is_none t.used_at ≡ false → is_none (set t).used_at ≡ false)
    → IsSpent h ts
    → IsSpent h (update_where condition set ts)
unfolding update_where get_by_hash
update_where-IsSpent h condition set [] keeps used (t, e, u) = absurd (cc e)
update_where-IsSpent h condition set (x ∷ ts) keeps used (t, e, u) =
    elim (Bool-cases (text_eq x.token_hash h)) [
      | inl here ↦
          let found : some x ≡ some t = sym (rw here refl) ∙ e in
          let same : x ≡ t = cc in
          let x_used : is_none x.used_at ≡ false = rw same u in
          elim (Bool-cases (condition x)) [
            | inl hit ↦
                let k = keeps x in
                let n : text_eq (set x).token_hash h ≡ true = rw k here in
                rw (hit, n) (set x, refl, used x x_used)
            | inr miss ↦ rw (miss, here) (x, refl, x_used)
          ]
      | inr other ↦
          let later : get_by_hash h ts ≡ some t = sym (rw other refl) ∙ e in
          let ih = update_where-IsSpent h condition set ts keeps used (t, later, u) in
          elim (Bool-cases (condition x)) [
            | inl hit ↦
                let k = keeps x in
                let n : text_eq (set x).token_hash h ≡ false = rw k other in rw (hit, n) ih
            | inr miss ↦ rw (miss, other) ih
          ]
    ]

get_by_hash-append :
    (h : Text) (ts us : List RefreshToken) (t : RefreshToken)
    → get_by_hash h ts ≡ some t
    → get_by_hash h (ts ++ us) ≡ some t
unfolding get_by_hash
get_by_hash-append h [] us t e = absurd (cc e)
get_by_hash-append h (x ∷ ts) us t e = elim (Bool-cases (text_eq x.token_hash h)) [
  | inl here ↦ let found : some x ≡ some t = sym (rw here refl) ∙ e in rw here found
  | inr other ↦
      let later : get_by_hash h ts ≡ some t = sym (rw other refl) ∙ e in
      rw other (get_by_hash-append h ts us t later)
]

-- The row that is marked is used from then on.
mark_used-IsSpent :
    (h : Text) (t : RefreshToken) (successor_id : Uuid) (now : Instant) (ts : List RefreshToken)
    → get_by_hash h ts ≡ some t
    → IsSpent h (mark_used t.id successor_id now ts)
unfolding get_by_hash update_where mark_used
mark_used-IsSpent h t successor_id now [] e = absurd (cc e)
mark_used-IsSpent h t successor_id now (x ∷ ts) e = elim (Bool-cases (text_eq x.token_hash h)) [
  | inl here ↦
      let found : some x ≡ some t = sym (rw here refl) ∙ e in
      let same : x.id ≡ t.id = cc in
      let hit : (x.id == t.id) ≡ true = ground arith in
      rw (hit, here) (with_used successor_id now x, refl, refl)
  | inr other ↦
      let later : get_by_hash h ts ≡ some t = sym (rw other refl) ∙ e in
      let ih = mark_used-IsSpent h t successor_id now ts later in
      elim (Bool-cases (x.id == t.id)) [
        | inl hit ↦ rw (hit, other) ih
        | inr miss ↦ rw (miss, other) ih
      ]
]

revoke_family-IsSpent :
    (h : Text) (family_id : Uuid) (now : Instant) (ts : List RefreshToken)
    → IsSpent h ts
    → IsSpent h (revoke_family family_id now ts)
unfolding revoke_family
revoke_family-IsSpent h family_id now ts s =
    update_where-IsSpent h _ (with_revoked now) ts (λ t. refl) (λ t u. u) s

module _ (settings : Settings) where
  rotate-keeps :
      (h : Text) (c : RefreshSessionCommand) (d : Draw) (t : RefreshToken) (ts : List RefreshToken)
      → IsSpent h ts
      → IsSpent h (rotate settings c d t ts).1
  unfolding rotate mark_used create
  rotate-keeps h c d t ts (x, e, u) =
      update_where-IsSpent h _ (with_used d.successor_id d.now) _ (λ t. refl) (λ t u. refl)
        (x, get_by_hash-append h ts _ x e, u)

  reuse-keeps :
      (h : Text) (c : RefreshSessionCommand) (d : Draw) (t : RefreshToken) (used_at : Instant)
      (ts : List RefreshToken)
      → IsSpent h ts
      → IsSpent h (reuse settings c d t used_at ts).1
  unfolding reuse
  reuse-keeps h c d t used_at ts s =
      elim (Bool-cases (
        leb d.now (used_at + seconds settings.grace_seconds)
        && text_eq c.device_fingerprint t.device_fingerprint
        && is_some t.successor_id)) [
          | inl benign ↦ rw (reuse, benign) s
          | inr theft ↦ rw (reuse, theft) (revoke_family-IsSpent h t.family_id d.now ts s)
        ]

  refresh_found-keeps :
      (h : Text) (c : RefreshSessionCommand) (d : Draw) (t : RefreshToken) (ts : List RefreshToken)
      → IsSpent h ts
      → IsSpent h (refresh_found settings c d t ts).1
  unfolding refresh_found get_by_hash
  refresh_found-keeps h c d t ts s =
      elim (Bool-cases (is_some t.revoked_at || leb t.expires_at d.now)) [
        | inl dead ↦ rw (refresh_found, dead) s
        | inr alive ↦ elim (Option-cases t.used_at) [
          | inl fresh ↦ rw (refresh_found, alive, fresh) (rotate-keeps h c d t ts s)
          | inr (at, used) ↦ rw (refresh_found, alive, used) (reuse-keeps h c d t at ts s)
        ]
      ]

  session_step-IsSpent :
      (h : Text) (step : SessionStep) (ts : List RefreshToken)
      → IsSpent h ts
      → IsSpent h (session_step settings step ts)
  unfolding session_step refresh_session revoke_presented get_by_hash
  session_step-IsSpent h (refresh c d) ts s =
      elim (Option-cases (get_by_hash (settings.hash c.raw_refresh_token) ts)) [
        | inl e ↦ rw (session_step, refresh_session, e) s
        | inr (t, e) ↦ rw (session_step, refresh_session, e) (refresh_found-keeps h c d t ts s)
      ]
  session_step-IsSpent h (logout c now) ts s = elim (Option-cases c.raw_refresh_token) [
    | inl e ↦ rw (session_step, revoke_presented, e) s
    | inr (raw, e) ↦ elim (Option-cases (get_by_hash (settings.hash raw) ts)) [
      | inl e' ↦ rw (session_step, revoke_presented, e, e') s
      | inr (t, e') ↦
          rw (session_step, revoke_presented, e, e') (revoke_family-IsSpent h t.family_id now ts s)
    ]
  ]
  session_step-IsSpent h (revoke_user user_id now) ts s =
      unfold revoke_user_sessions revoke_all_for_user in
      update_where-IsSpent h _ (with_revoked now) ts (λ t. refl) (λ t u. u) s

  session_steps-IsSpent :
      (h : Text) (steps : List SessionStep) (ts : List RefreshToken)
      → IsSpent h ts
      → IsSpent h (session_steps settings steps ts)
  unfolding session_steps
  session_steps-IsSpent h [] ts s = s
  session_steps-IsSpent h (step ∷ steps) ts s =
      session_steps-IsSpent h steps (session_step settings step ts)
        (session_step-IsSpent h step ts s)

  -- The answers that hand out a new refresh token.
  abbrev pub new_token : Answer → Option Text
  new_token (refreshed r) = r.refresh_token
  new_token _ = none

  spent-gives_none :
      (c : RefreshSessionCommand) (d : Draw) (ts : List RefreshToken)
      → IsSpent (settings.hash c.raw_refresh_token) ts
      → new_token (refresh_session settings c d ts).0 ≡ none
  unfolding refresh_session refresh_found reuse
  spent-gives_none c d ts (t, e, u) =
      elim (Bool-cases (is_some t.revoked_at || leb t.expires_at d.now)) [
        | inl dead ↦ rw (refresh_session, e, refresh_found, dead) refl
        | inr alive ↦ elim (Option-cases t.used_at) [
          | inl fresh ↦ absurd (ground arith)
          | inr (at, used) ↦
              elim (Bool-cases (
                leb d.now (at + seconds settings.grace_seconds)
                && text_eq c.device_fingerprint t.device_fingerprint
                && is_some t.successor_id)) [
                  | inl benign ↦
                      rw (refresh_session, e, refresh_found, alive, used, reuse, benign) refl
                  | inr theft ↦
                      rw (refresh_session, e, refresh_found, alive, used, reuse, theft) refl
                ]
        ]
      ]

  -- A refresh that hands out a new token spends the one presented.
  rotation-IsSpent :
      (c : RefreshSessionCommand) (d : Draw) (ts : List RefreshToken) (raw : Text)
      → new_token (refresh_session settings c d ts).0 ≡ some raw
      → IsSpent (settings.hash c.raw_refresh_token) (refresh_session settings c d ts).1
  unfolding refresh_session refresh_found
  rotation-IsSpent c d ts raw given =
      elim (Option-cases (get_by_hash (settings.hash c.raw_refresh_token) ts)) [
        | inl e ↦
            let nothing : new_token (refresh_session settings c d ts).0 ≡ none =
              rw (refresh_session, e) refl in
            let clash : none ≡ some raw = sym nothing ∙ given in absurd (cc clash)
        | inr (t, e) ↦ elim (Option-cases t.used_at) [
          | inr (at, used) ↦
              let nothing : new_token (refresh_session settings c d ts).0 ≡ none =
                spent-gives_none c d ts (t, e, ground arith) in
              let clash : none ≡ some raw = sym nothing ∙ given in absurd (cc clash)
          | inl fresh ↦ elim (Bool-cases (is_some t.revoked_at || leb t.expires_at d.now)) [
            | inl dead ↦
                let nothing : new_token (refresh_session settings c d ts).0 ≡ none =
                  rw (refresh_session, e, refresh_found, dead) refl in
                let clash : none ≡ some raw = sym nothing ∙ given in absurd (cc clash)
            | inr alive ↦
                rw (refresh_session, e, refresh_found, alive, fresh)
                  (unfold rotate create in
                    mark_used-IsSpent _ t d.successor_id d.now _ (get_by_hash-append _ ts _ t e))
          ]
        ]
      ]

  -- A refresh token is exchanged for a new one at most once: after a refresh that hands out a new
  -- token, and any refreshes, logouts and revocations of any tokens, presenting the old one again
  -- never hands out another.
  pub refresh_session-rotates_once :
      (c c' : RefreshSessionCommand) (d d' : Draw) (ts : List RefreshToken) (raw : Text)
      (steps : List SessionStep)
      → new_token (refresh_session settings c d ts).0 ≡ some raw
      → c'.raw_refresh_token ≡ c.raw_refresh_token
      → new_token
          (refresh_session settings c' d'
            (session_steps settings steps (refresh_session settings c d ts).1)).0
        ≡ none
  refresh_session-rotates_once c c' d d' ts raw steps given again =
      spent-gives_none c' d' _
        (rw again (session_steps-IsSpent _ steps _ (rotation-IsSpent c d ts raw given)))
