-- ===== src/Invitations/Joined.antt =====
-- What invitations do to the memberships (apps/api/src/aether/app/invitations/accept_invitation.py).
use aether_ai_workspace.Base.{
  arith, ◌≤◌, ◌≡◌, refl, sym, ◌∙◌, false, ◌||◌, none, some, List, [], ◌∷◌, ◌++◌, Text, leb, is_some,
  Bool-cases, Option-cases, inl, inr,
}
use aether_ai_workspace.Domain.Entities.{Uuid, Membership, MembershipRole}
use aether_ai_workspace.Members.{is_key, has_role, get, count_by_role}
use aether_ai_workspace.Members.Rows.{IsTable}
use aether_ai_workspace.Invitations.{
  InvitationStore, InvitationDraw, AcceptInvitationCommand, get_invitation, new_membership,
  create_invitation, join, accept_found, accept_invitation, revoke_invitation,
}
use aether_ai_workspace.Invitations.SingleUse.{
  InvitationStep, invite, accept, withdraw, invitation_step, invitation_steps,
}

-- The table keeps its constraint, keeps whom it has, and has no fewer members of any role.
pub record Extends (before after : List Membership) : Type 0 where
  pub is_table : IsTable after
  pub keeps : (w u : Uuid) (m : Membership) → get w u before ≡ some m → get w u after ≡ some m
  pub counts : (w : Uuid) (r : MembershipRole) → count_by_role w r before ≤ count_by_role w r after

append-absent :
    (ms : List Membership) (m : Membership) (w u : Uuid)
    → get w u ms ≡ none
    → is_key w u m ≡ false
    → get w u (ms ++ (m ∷ [])) ≡ none
unfolding get
append-absent [] m w u e other = rw other refl
append-absent (x ∷ ms) m w u e other = elim (Bool-cases (is_key w u x)) [
  | inl key ↦ let clash : some x ≡ none = sym (rw key refl) ∙ e in absurd (cc clash)
  | inr no_key ↦ rw no_key (append-absent ms m w u (sym (rw no_key refl) ∙ e) other)
]

append-IsTable :
    (ms : List Membership) (m : Membership)
    → IsTable ms
    → get m.workspace_id m.user_id ms ≡ none
    → IsTable (ms ++ (m ∷ []))
unfolding get
append-IsTable [] m h e = (refl, tt)
append-IsTable (x ∷ ms) m h e = elim (Bool-cases (is_key m.workspace_id m.user_id x)) [
  | inl key ↦ let clash : some x ≡ none = sym (rw key refl) ∙ e in absurd (cc clash)
  | inr other ↦
      let later : get m.workspace_id m.user_id ms ≡ none = sym (rw other refl) ∙ e in
      (
        append-absent ms m x.workspace_id x.user_id h.0 (ground arith),
        append-IsTable ms m h.1 later,
      )
]

append-get :
    (ms : List Membership) (m found : Membership) (w u : Uuid)
    → get w u ms ≡ some found
    → get w u (ms ++ (m ∷ [])) ≡ some found
unfolding get
append-get [] m found w u e = absurd (cc e)
append-get (x ∷ ms) m found w u e = elim (Bool-cases (is_key w u x)) [
  | inl key ↦ rw key (sym (rw key refl) ∙ e)
  | inr other ↦ rw other (append-get ms m found w u (sym (rw other refl) ∙ e))
]

append-counts :
    (ms : List Membership) (m : Membership) (w : Uuid) (r : MembershipRole)
    → count_by_role w r ms ≤ count_by_role w r (ms ++ (m ∷ []))
unfolding count_by_role
append-counts [] m w r = omega arith
append-counts (x ∷ ms) m w r = elim (Bool-cases (has_role w r x)) [
  | inl e ↦ rw e (omega (arith, append-counts ms m w r))
  | inr e ↦ rw e (append-counts ms m w r)
]

same-Extends : (ms : List Membership) → IsTable ms → Extends ms ms
same-Extends ms h = record { is_table = h; keeps = λ w u m e. e; counts = λ w r. omega arith }

append-Extends :
    (ms : List Membership) (m : Membership)
    → IsTable ms
    → get m.workspace_id m.user_id ms ≡ none
    → Extends ms (ms ++ (m ∷ []))
append-Extends ms m h e = record {
  is_table = append-IsTable ms m h e;
  keeps = λ w u found own. append-get ms m found w u own;
  counts = append-counts ms m;
}

module _ (hash : Text → Text) where
  accept-Extends :
      (c : AcceptInvitationCommand) (d : InvitationDraw) (s : InvitationStore)
      → IsTable s.memberships
      → Extends s.memberships (accept_invitation hash c d s).1.memberships
  unfolding accept_invitation accept_found join new_membership
  accept-Extends c d s h =
      let same = same-Extends s.memberships h in
      elim (Option-cases (get_invitation (hash c.raw_token) s.invitations)) [
        | inl e ↦ rw (accept_invitation, e) same
        | inr (i, e) ↦ elim (Bool-cases (is_some i.consumed_at || leb i.expires_at d.now)) [
          | inl dead ↦ rw (accept_invitation, e, accept_found, dead) same
          | inr alive ↦ elim (Option-cases (get i.workspace_id c.accepting_user_id s.memberships)) [
            | inl new ↦
                let m =
                  new_membership d.row_id i.workspace_id c.accepting_user_id i.role d.row_time in
                rw (accept_invitation, e, accept_found, alive, new)
                  (append-Extends s.memberships m h new)
            | inr (m, old) ↦ rw (accept_invitation, e, accept_found, alive, old) same
          ]
        ]
      ]

  -- On a table with one row for a user of a workspace: whatever is done with invitations, the table
  -- keeps one row for a user of a workspace, no membership that is there changes, and no role of a
  -- workspace loses a member.
  pub invitation_steps-Extends :
      (steps : List InvitationStep) (s : InvitationStore)
      → IsTable s.memberships
      → Extends s.memberships (invitation_steps hash steps s).memberships
  unfolding invitation_steps invitation_step create_invitation revoke_invitation
  invitation_steps-Extends [] s h = same-Extends s.memberships h
  invitation_steps-Extends (invite c d ∷ steps) s h =
      invitation_steps-Extends steps (create_invitation hash c d s).1 h
  invitation_steps-Extends (withdraw c d ∷ steps) s h =
      invitation_steps-Extends steps (revoke_invitation c d s) h
  invitation_steps-Extends (accept c d ∷ steps) s h =
      let first = accept-Extends c d s h in
      let rest = invitation_steps-Extends steps (accept_invitation hash c d s).1 first.is_table in
      record {
        is_table = rest.is_table;
        keeps = λ w u m e. rest.keeps w u m (first.keeps w u m e);
        counts = λ w r.
            let one = first.counts w r in let more = rest.counts w r in omega (arith, one, more);
      }
