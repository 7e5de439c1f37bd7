-- ===== src/Invitations/SingleUse.antt =====
-- An invitation works once.
use aether_ai_workspace.Base.{
  arith, ◌≡◌, refl, sym, ◌∙◌, true, false, ◌&&◌, ◌||◌, none, some, List, [], ◌∷◌, Text, text_eq,
  text_eq→≡, ◌==◌, ==_refl, leb, is_none, is_some, Bool-cases, Option-cases, inl, inr, All,
  All-append, find_row, update_rows, update_rows-All, delete_rows-All, find_row-none, find_row-All,
  find_row-holds,
}
use aether_ai_workspace.Domain.Entities.{Uuid, Instant, Invitation, Membership}
use aether_ai_workspace.Members.{get}
use aether_ai_workspace.Invitations.{
  InvitationStore, InvitationDraw, CreateInvitationCommand, AcceptInvitationCommand,
  RevokeInvitationCommand, has_hash, get_invitation, consumed_by, consume_invitation,
  delete_invitation, new_invitation, create_invitation, join, accept_found, accept_invitation,
  revoke_invitation,
}

-- The constraint `UNIQUE (token_hash)` of the table.
abbrev pub IsHashTable : List Invitation → Type 0
IsHashTable [] = Unit
IsHashTable (i ∷ rows) = (get_invitation i.token_hash rows ≡ none) × IsHashTable rows

-- No row of the hash waits to be accepted.
abbrev pub IsSpent : Text → List Invitation → Type 0
IsSpent h = All (λ i. has_hash h i && is_none i.consumed_at ≡ false)

absent-IsSpent :
    (h : Text) (rows : List Invitation) → All (λ i. has_hash h i ≡ false) rows → IsSpent h rows
absent-IsSpent h [] a = tt
absent-IsSpent h (i ∷ rows) a = let e = a.0 in (rw e refl, absent-IsSpent h rows a.1)

consume-keeps :
    (h : Text) (id : Uuid) (now : Instant) (rows : List Invitation)
    → IsSpent h rows
    → IsSpent h (consume_invitation id now rows)
unfolding consume_invitation
consume-keeps h id now rows =
    update_rows-All _ (λ i. i.id == id) (consumed_by now) rows (λ i hit spent. ground arith)

-- Consuming the row that is found, of a hash that no other row has.
consume-IsSpent :
    (h : Text) (now : Instant) (rows : List Invitation) (i : Invitation)
    → IsHashTable rows
    → get_invitation h rows ≡ some i
    → IsSpent h (consume_invitation i.id now rows)
unfolding get_invitation consume_invitation find_row update_rows
consume-IsSpent h now [] i table e = absurd (cc e)
consume-IsSpent h now (x ∷ rows) i table e = elim (Bool-cases (has_hash h x)) [
  | inl here ↦
      let found : some x ≡ some i = sym (rw here refl) ∙ e in
      let same : x.id ≡ i.id = cc in
      let hit : (x.id == i.id) ≡ true = rw same (==_refl i.id) in
      let name : x.token_hash ≡ h = text_eq→≡ x.token_hash h here in
      let others : get_invitation h rows ≡ none = rw⁻¹ name table.0 in
      rw hit (
        ground arith,
        consume-keeps h i.id now rows
            (absent-IsSpent h rows (find_row-none (has_hash h) rows others)),
      )
  | inr other ↦
      let later : get_invitation h rows ≡ some i = sym (rw other refl) ∙ e in
      let rest = consume-IsSpent h now rows i table.1 later in
      elim (Bool-cases (x.id == i.id)) [
        | inl hit ↦ rw hit (ground arith, rest)
        | inr miss ↦ rw miss (ground arith, rest)
      ]
]

-- What is done with invitations.
pub data InvitationStep : Type 0 where
  invite : CreateInvitationCommand → InvitationDraw → InvitationStep
  accept : AcceptInvitationCommand → InvitationDraw → InvitationStep
  withdraw : RevokeInvitationCommand → InvitationDraw → InvitationStep

module _ (hash : Text → Text) where
  unfoldable pub invitation_step : InvitationStep → InvitationStore → InvitationStore
  unfolding create_invitation accept_invitation revoke_invitation
  invitation_step (invite c d) s = (create_invitation hash c d s).1
  invitation_step (accept c d) s = (accept_invitation hash c d s).1
  invitation_step (withdraw c d) s = revoke_invitation c d s

  unfoldable pub invitation_steps : List InvitationStep → InvitationStore → InvitationStore
  unfolding invitation_step
  invitation_steps [] s = s
  invitation_steps (step ∷ steps) s = invitation_steps steps (invitation_step step s)

  -- A new invitation draws a token of another hash.
  abbrev pub DrawsOther : Text → InvitationStep → Type 0
  DrawsOther h (invite c d) = text_eq (hash d.raw_token) h ≡ false
  DrawsOther h _ = Unit

  accept-keeps :
      (h : Text) (c : AcceptInvitationCommand) (d : InvitationDraw) (s : InvitationStore)
      → IsSpent h s.invitations
      → IsSpent h (accept_invitation hash c d s).1.invitations
  unfolding accept_invitation accept_found join
  accept-keeps h c d s spent =
      elim (Option-cases (get_invitation (hash c.raw_token) s.invitations)) [
        | inl e ↦ rw (accept_invitation, e) spent
        | inr (i, e) ↦ elim (Bool-cases (is_some i.consumed_at || leb i.expires_at d.now)) [
          | inl dead ↦ rw (accept_invitation, e, accept_found, dead) spent
          | inr alive ↦ elim (Option-cases (get i.workspace_id c.accepting_user_id s.memberships)) [
            | inl new ↦
                rw (accept_invitation, e, accept_found, alive, new)
                  (consume-keeps h i.id d.now_consume s.invitations spent)
            | inr (m, old) ↦
                rw (accept_invitation, e, accept_found, alive, old)
                  (consume-keeps h i.id d.now_consume s.invitations spent)
          ]
        ]
      ]

  accept-IsSpent :
      (c : AcceptInvitationCommand) (d : InvitationDraw) (s : InvitationStore) (m : Membership)
      → IsHashTable s.invitations
      → (accept_invitation hash c d s).0 ≡ some m
      → IsSpent (hash c.raw_token) (accept_invitation hash c d s).1.invitations
  unfolding accept_invitation accept_found join
  accept-IsSpent c d s m table done =
      elim (Option-cases (get_invitation (hash c.raw_token) s.invitations)) [
        | inl e ↦
            let answer : (accept_invitation hash c d s).0 ≡ none = rw (accept_invitation, e) refl in
            let clash : none ≡ some m = sym answer ∙ done in absurd (cc clash)
        | inr (i, e) ↦
            let spent = consume-IsSpent (hash c.raw_token) d.now_consume s.invitations i table e in
            elim (Bool-cases (is_some i.consumed_at || leb i.expires_at d.now)) [
              | inl dead ↦
                  let answer : (accept_invitation hash c d s).0 ≡ none =
                    rw (accept_invitation, e, accept_found, dead) refl in
                  let clash : none ≡ some m = sym answer ∙ done in absurd (cc clash)
              | inr alive ↦
                  elim (Option-cases (get i.workspace_id c.accepting_user_id s.memberships)) [
                    | inl new ↦ rw (accept_invitation, e, accept_found, alive, new) spent
                    | inr (m', old) ↦ rw (accept_invitation, e, accept_found, alive, old) spent
                  ]
            ]
      ]

  step-keeps :
      (h : Text) (step : InvitationStep) (s : InvitationStore)
      → DrawsOther h step
      → IsSpent h s.invitations
      → IsSpent h (invitation_step step s).invitations
  unfolding invitation_step create_invitation new_invitation revoke_invitation delete_invitation
  step-keeps h (invite c d) s other spent =
      All-append _ s.invitations (new_invitation hash c d ∷ []) spent (rw other refl, tt)
  step-keeps h (accept c d) s other spent = accept-keeps h c d s spent
  step-keeps h (withdraw c d) s other spent =
      delete_rows-All _ (λ i. (i.workspace_id == c.workspace_id) && (i.id == c.invitation_id))
        s.invitations spent

  steps-keep :
      (h : Text) (steps : List InvitationStep) (s : InvitationStore)
      → All (DrawsOther h) steps
      → IsSpent h s.invitations
      → IsSpent h (invitation_steps steps s).invitations
  unfolding invitation_steps
  steps-keep h [] s others spent = spent
  steps-keep h (step ∷ steps) s others spent =
      steps-keep h steps (invitation_step step s) others.1 (step-keeps h step s others.0 spent)

  spent-refused :
      (c : AcceptInvitationCommand) (d : InvitationDraw) (s : InvitationStore)
      → IsSpent (hash c.raw_token) s.invitations
      → accept_invitation hash c d s ≡ (none, s)
  unfolding accept_invitation accept_found get_invitation
  spent-refused c d s spent =
      let h = hash c.raw_token in
      elim (Option-cases (get_invitation h s.invitations)) [
        | inl e ↦ rw (accept_invitation, e) refl
        | inr (i, e) ↦
            let own = find_row-holds (has_hash h) s.invitations i e in
            let consumed = find_row-All _ (has_hash h) s.invitations i e spent in
            let dead : (is_some i.consumed_at || leb i.expires_at d.now) ≡ true = ground arith in
            rw (accept_invitation, e, accept_found, dead) refl
      ]

  -- On a table whose hashes are unique: after an invitation's token was accepted, and any further
  -- invitations with tokens of another hash, acceptances and revocations, the token is refused,
  -- whoever presents it, and the refusal changes nothing.
  pub accept_invitation-single_use :
      (c c' : AcceptInvitationCommand) (d d' : InvitationDraw) (s : InvitationStore)
      (m : Membership) (steps : List InvitationStep)
      → IsHashTable s.invitations
      → (accept_invitation hash c d s).0 ≡ some m
      → c'.raw_token ≡ c.raw_token
      → All (DrawsOther (hash c.raw_token)) steps
      → accept_invitation hash c' d' (invitation_steps steps (accept_invitation hash c d s).1)
        ≡ (none, invitation_steps steps (accept_invitation hash c d s).1)
  accept_invitation-single_use c c' d d' s m steps table done same others =
      let spent =
        steps-keep (hash c.raw_token) steps (accept_invitation hash c d s).1 others
          (accept-IsSpent c d s m table done) in
      spent-refused c' d' (invitation_steps steps (accept_invitation hash c d s).1) (rw same spent)
