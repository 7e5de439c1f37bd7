-- ===== src/ApiKeys/Revoked.antt =====
-- A key that was revoked is never accepted again.
use aether_ai_workspace.Base.{
  ◌≡◌, ◌≢◌, refl, sym, ◌∙◌, true, false, not, ◌&&◌, ◌||◌, none, some, List, [], ◌∷◌, ◌++◌, Text,
  text_eq, ◌==◌, leb, is_none, is_some, Bool-cases, Option-cases, inl, inr, arith,
}
use aether_ai_workspace.Domain.Entities.{Uuid, Instant, ApiKey}
use aether_ai_workspace.ApiKeys.{
  is_stale, extract_prefix, get_by_prefix, revoke, touch_last_used, KeyStore, CreateApiKeyCommand,
  RevokeApiKeyCommand, KeyDraw, ApiKeyPrincipal, wrong_key, no_longer_valid, authenticated,
  create_api_key, verify_found, verify_api_key, revoke_api_key,
}

-- The row of this prefix is there and was revoked.
abbrev pub IsRevoked : Text → List ApiKey → Type 0
IsRevoked p ks = (k : ApiKey) × (get_by_prefix p ks ≡ some k) × (is_none k.revoked_at ≡ false)

append-IsRevoked : (p : Text) (ks new : List ApiKey) → IsRevoked p ks → IsRevoked p (ks ++ new)
unfolding get_by_prefix
append-IsRevoked p [] new (k, e, r) = absurd (cc e)
append-IsRevoked p (x ∷ ks) new (k, e, r) = elim (Bool-cases (text_eq x.prefix p)) [
  | inl here ↦ rw here (k, sym (rw here refl) ∙ e, r)
  | inr other ↦
      let later : get_by_prefix p ks ≡ some k = sym (rw other refl) ∙ e in
      rw other (append-IsRevoked p ks new (k, later, r))
]

revoke-keeps :
    (p : Text) (w key_id : Uuid) (now : Instant) (ks : List ApiKey)
    → IsRevoked p ks
    → IsRevoked p (revoke w key_id now ks)
unfolding get_by_prefix revoke
revoke-keeps p w key_id now [] (k, e, r) = absurd (cc e)
revoke-keeps p w key_id now (x ∷ ks) (k, e, r) = elim (Bool-cases (text_eq x.prefix p)) [
  | inl here ↦
      let found : some x ≡ some k = sym (rw here refl) ∙ e in
      let same : x ≡ k = cc in
      let r' : is_none x.revoked_at ≡ false = rw same r in
      elim (Bool-cases ((x.workspace_id == w) && (x.id == key_id))) [
        | inl hit ↦ rw (hit, here) (record x { revoked_at = some now }, refl, refl)
        | inr miss ↦ rw (miss, here) (x, refl, r')
      ]
  | inr other ↦
      let later : get_by_prefix p ks ≡ some k = sym (rw other refl) ∙ e in
      let ih = revoke-keeps p w key_id now ks (k, later, r) in
      elim (Bool-cases ((x.workspace_id == w) && (x.id == key_id))) [
        | inl hit ↦ rw (hit, other) ih
        | inr miss ↦ rw (miss, other) ih
      ]
]

touch-keeps :
    (p : Text) (key_id : Uuid) (now : Instant) (ks : List ApiKey)
    → IsRevoked p ks
    → IsRevoked p (touch_last_used key_id now ks)
unfolding get_by_prefix touch_last_used
touch-keeps p key_id now [] (k, e, r) = absurd (cc e)
touch-keeps p key_id now (x ∷ ks) (k, e, r) = elim (Bool-cases (text_eq x.prefix p)) [
  | inl here ↦
      let found : some x ≡ some k = sym (rw here refl) ∙ e in
      let same : x ≡ k = cc in
      let r' : is_none x.revoked_at ≡ false = rw same r in
      elim (Bool-cases ((x.id == key_id) && is_stale x.last_used_at now)) [
        | inl hit ↦ rw (hit, here) (record x { last_used_at = some now }, refl, r')
        | inr miss ↦ rw (miss, here) (x, refl, r')
      ]
  | inr other ↦
      let later : get_by_prefix p ks ≡ some k = sym (rw other refl) ∙ e in
      let ih = touch-keeps p key_id now ks (k, later, r) in
      elim (Bool-cases ((x.id == key_id) && is_stale x.last_used_at now)) [
        | inl hit ↦ rw (hit, other) ih
        | inr miss ↦ rw (miss, other) ih
      ]
]

-- Revoking the key of this prefix.
revoke-IsRevoked :
    (p : Text) (w key_id : Uuid) (now : Instant) (ks : List ApiKey) (k : ApiKey)
    → get_by_prefix p ks ≡ some k
    → k.workspace_id ≡ w
    → k.id ≡ key_id
    → IsRevoked p (revoke w key_id now ks)
unfolding get_by_prefix revoke
revoke-IsRevoked p w key_id now [] k e ew ei = absurd (cc e)
revoke-IsRevoked p w key_id now (x ∷ ks) k e ew ei = elim (Bool-cases (text_eq x.prefix p)) [
  | inl here ↦
      let found : some x ≡ some k = sym (rw here refl) ∙ e in
      let sw : x.workspace_id ≡ k.workspace_id = cc in
      let si : x.id ≡ k.id = cc in
      let hit : (x.workspace_id == w) && (x.id == key_id) ≡ true = ground arith in
      rw (hit, here) (record x { revoked_at = some now }, refl, refl)
  | inr other ↦
      let later : get_by_prefix p ks ≡ some k = sym (rw other refl) ∙ e in
      let ih = revoke-IsRevoked p w key_id now ks k later ew ei in
      elim (Bool-cases ((x.workspace_id == w) && (x.id == key_id))) [
        | inl hit ↦ rw (hit, other) ih
        | inr miss ↦ rw (miss, other) ih
      ]
]

-- The operations on the keys.
pub data KeyStep : Type 0 where
  issue : CreateApiKeyCommand → KeyDraw → KeyStep
  withdraw : RevokeApiKeyCommand → Instant → Uuid → KeyStep
  verify : Text → Instant → KeyStep

module _ (hash : Text → Text) (env : Text) where
  verify-keeps :
      (p raw_key : Text) (now : Instant) (ks : List ApiKey)
      → IsRevoked p ks
      → IsRevoked p (verify_api_key hash env raw_key now ks).1
  unfolding verify_api_key verify_found
  verify-keeps p raw_key now ks r = elim (Option-cases (extract_prefix raw_key)) [
    | inl e ↦ rw (verify_api_key, e) r
    | inr (q, e) ↦ elim (Option-cases (get_by_prefix q ks)) [
      | inl e' ↦ rw (verify_api_key, e, e') r
      | inr (k, e') ↦ elim (Bool-cases (not (text_eq k.secret_hash (hash raw_key)))) [
        | inl wrong ↦ rw (verify_api_key, e, e', verify_found, wrong) r
        | inr right ↦
            elim (Bool-cases (
              is_some k.revoked_at
              || elim k.expires_at [ none ↦ false | some expires_at ↦ leb expires_at now ])) [
                | inl dead ↦ rw (verify_api_key, e, e', verify_found, right, dead) r
                | inr alive ↦
                    rw (verify_api_key, e, e', verify_found, right, alive)
                      (touch-keeps p k.id now ks r)
              ]
      ]
    ]
  ]

  unfoldable pub key_step : KeyStep → KeyStore → KeyStore
  unfolding create_api_key revoke_api_key verify_api_key
  key_step (issue c d) s = (create_api_key hash env c d s).1
  key_step (withdraw c now event_id) s = revoke_api_key c now event_id s
  key_step (verify raw_key now) s = record s {
    keys = (verify_api_key hash env raw_key now s.keys).1;
  }

  unfoldable pub key_steps : List KeyStep → KeyStore → KeyStore
  unfolding key_step
  key_steps [] s = s
  key_steps (step ∷ steps) s = key_steps steps (key_step step s)

  key_step-IsRevoked :
      (p : Text) (step : KeyStep) (s : KeyStore)
      → IsRevoked p s.keys
      → IsRevoked p (key_step step s).keys
  unfolding key_step create_api_key revoke_api_key
  key_step-IsRevoked p (issue c d) s r = append-IsRevoked p s.keys _ r
  key_step-IsRevoked p (withdraw c now event_id) s r = revoke-keeps p _ _ now s.keys r
  key_step-IsRevoked p (verify raw_key now) s r = verify-keeps p raw_key now s.keys r

  key_steps-IsRevoked :
      (p : Text) (steps : List KeyStep) (s : KeyStore)
      → IsRevoked p s.keys
      → IsRevoked p (key_steps steps s).keys
  unfolding key_steps
  key_steps-IsRevoked p [] s r = r
  key_steps-IsRevoked p (step ∷ steps) s r =
      key_steps-IsRevoked p steps (key_step step s) (key_step-IsRevoked p step s r)

  -- A revoked row is not accepted, whatever secret is presented.
  revoked-refused :
      (p raw_key : Text) (now : Instant) (ks : List ApiKey) (principal : ApiKeyPrincipal)
      → extract_prefix raw_key ≡ some p
      → IsRevoked p ks
      → (verify_api_key hash env raw_key now ks).0 ≢ authenticated principal
  unfolding verify_api_key verify_found
  revoked-refused p raw_key now ks principal e (k, e', r) accepted =
      elim (Bool-cases (not (text_eq k.secret_hash (hash raw_key)))) [
        | inl wrong ↦
            let answer : (verify_api_key hash env raw_key now ks).0 ≡ wrong_key =
              rw (verify_api_key, e, e', verify_found, wrong) refl in
            let clash : wrong_key ≡ authenticated principal = sym answer ∙ accepted in
            absurd (cc clash)
        | inr right ↦
            let dead : is_some k.revoked_at
                  || elim k.expires_at [ none ↦ false | some expires_at ↦ leb expires_at now ]
                ≡ true =
              ground arith in
            let answer : (verify_api_key hash env raw_key now ks).0 ≡ no_longer_valid =
              rw (verify_api_key, e, e', verify_found, right, dead) refl in
            let clash : no_longer_valid ≡ authenticated principal = sym answer ∙ accepted in
            absurd (cc clash)
      ]

  -- Once the key that a raw key's prefix names is revoked, the raw key is never accepted again, after
  -- any keys issued, revoked and verified in between.
  pub verify_api_key-revoked :
      (c : RevokeApiKeyCommand) (at now : Instant) (event_id : Uuid) (s : KeyStore) (k : ApiKey)
      (p raw_key : Text) (steps : List KeyStep) (principal : ApiKeyPrincipal)
      → extract_prefix raw_key ≡ some p
      → get_by_prefix p s.keys ≡ some k
      → k.workspace_id ≡ c.workspace_id
      → k.id ≡ c.key_id
      → (verify_api_key hash env raw_key now
          (key_steps steps (revoke_api_key c at event_id s)).keys).0
        ≢ authenticated principal
  verify_api_key-revoked c at now event_id s k p raw_key steps principal e found ew ei =
      revoked-refused p raw_key now _ principal e (
        key_steps-IsRevoked p steps (revoke_api_key c at event_id s)
          (unfold revoke_api_key in revoke-IsRevoked p _ _ at s.keys k found ew ei))
