-- ===== src/Invitations.antt =====
-- Invitations: apps/api/src/aether/app/invitations over adapters/postgres/invitation_repository.py and
-- the creation of a membership in membership_repository.py. Each use case runs in one transaction; a
-- violation of the tables' constraints is not modelled. The hash of tokens is a parameter.
pub mod SingleUse
pub mod Joined
use aether_ai_workspace.Base.{
  ℕ, ◌+◌, Bool, true, false, ◌&&◌, ◌||◌, Option, none, some, List, [], ◌∷◌, ◌++◌, Text, codes,
  text_eq, ◌==◌, leb, is_some, if◌then◌else◌, find_row, update_rows, delete_rows,
}
use aether_ai_workspace.Domain.Entities.{Uuid, Instant, Invitation, Membership, MembershipRole}
use aether_ai_workspace.Members.{get}

-- `timedelta(days=7)`, in microseconds
abbrev pub expiry : ℕ
expiry = 604800000000

-- What these use cases write to the audit log, with the metadata.
pub data InvitationAction : Type 0 where
  created : (email : Text) (role : MembershipRole) → InvitationAction
  accepted : (role : MembershipRole) → InvitationAction
  revoked : InvitationAction

pub record InvitationEntry : Type 0 where
  pub id : Uuid
  pub workspace_id : Uuid
  pub actor_user_id : Uuid
  pub action : InvitationAction
  pub target_id : Uuid

-- An e-mail in the outbox.
pub record InvitationEmail : Type 0 where
  pub id : Uuid
  pub aggregate_id : Uuid
  pub tenant_id : Uuid
  pub to : Text
  pub subject : Text
  pub text_body : Text

pub record InvitationStore : Type 0 where
  pub invitations : List Invitation
  pub memberships : List Membership
  pub audit_log : List InvitationEntry
  pub outbox : List InvitationEmail

abbrev pub has_hash : Text → Invitation → Bool
has_hash h i = text_eq i.token_hash h

unfoldable pub get_invitation : Text → List Invitation → Option Invitation
unfolding find_row text_eq
get_invitation h rows = find_row (has_hash h) rows

abbrev pub consumed_by : Instant → Invitation → Invitation
consumed_by now i = record i { consumed_at = some now }

unfoldable pub consume_invitation : Uuid → Instant → List Invitation → List Invitation
unfolding update_rows
consume_invitation id now rows = update_rows (λ i. i.id == id) (consumed_by now) rows

unfoldable pub delete_invitation : Uuid → Uuid → List Invitation → List Invitation
unfolding delete_rows
delete_invitation w id rows = delete_rows (λ i. (i.workspace_id == w) && (i.id == id)) rows

pub record CreateInvitationCommand : Type 0 where
  pub workspace_id : Uuid
  pub email : Text
  pub role : MembershipRole
  pub invited_by : Uuid

pub record AcceptInvitationCommand : Type 0 where
  pub raw_token : Text
  pub accepting_user_id : Uuid

pub record RevokeInvitationCommand : Type 0 where
  pub workspace_id : Uuid
  pub invitation_id : Uuid
  pub actor_user_id : Uuid

-- What a use case draws: the clock's readings, new ids, and the random token.
pub record InvitationDraw : Type 0 where
  pub now : Instant
  pub now_consume : Instant
  pub row_time : Instant
  pub raw_token : Text
  pub row_id : Uuid
  pub entry_id : Uuid
  pub email_id : Uuid

-- The row of a membership that is created.
unfoldable pub new_membership : Uuid → Uuid → Uuid → MembershipRole → Instant → Membership
new_membership id w u role now = record {
  id = id;
  workspace_id = w;
  user_id = u;
  role = role;
  created_at = now;
  updated_at = now;
}

module _ (hash : Text → Text) where
  unfoldable pub new_invitation : CreateInvitationCommand → InvitationDraw → Invitation
  new_invitation c d = record {
    id = d.row_id;
    workspace_id = c.workspace_id;
    email = c.email;
    role = c.role;
    token_hash = hash d.raw_token;
    invited_by = c.invited_by;
    expires_at = d.now + expiry;
    consumed_at = none;
    created_at = d.row_time;
  }

  -- `CreateInvitation.execute`: the invitation and the raw token.
  unfoldable pub create_invitation :
      CreateInvitationCommand
      → InvitationDraw
      → InvitationStore
      → (Invitation × Text) × InvitationStore
  unfolding new_invitation
  create_invitation c d s = (
    (new_invitation c d, d.raw_token),
    record {
      invitations = s.invitations ++ (new_invitation c d ∷ []);
      memberships = s.memberships;
      audit_log =
          s.audit_log
          ++ (record {
            id = d.entry_id;
            workspace_id = c.workspace_id;
            actor_user_id = c.invited_by;
            action = InvitationAction.created c.email c.role;
            target_id = d.row_id;
          }
              ∷ []);
      outbox =
          s.outbox
          ++ (record {
            id = d.email_id;
            aggregate_id = d.row_id;
            tenant_id = c.workspace_id;
            to = c.email;
            subject = codes "You've been invited to a workspace on Aether";
            text_body =
                codes "You've been invited to join a workspace. Your invitation code: "
                ++ d.raw_token;
          }
              ∷ []);
    },
  )

  -- The acceptance of a valid invitation, on the membership that exists.
  unfoldable pub join :
      Uuid
      → InvitationDraw
      → Invitation
      → Option Membership
      → InvitationStore
      → Membership × InvitationStore
  unfolding consume_invitation new_membership
  join user_id d i (some existing) s =
      (existing, record s { invitations = consume_invitation i.id d.now_consume s.invitations })
  join user_id d i none s =
      let membership = new_membership d.row_id i.workspace_id user_id i.role d.row_time in
      (
        membership,
        record {
          invitations = consume_invitation i.id d.now_consume s.invitations;
          memberships = s.memberships ++ (membership ∷ []);
          audit_log =
              s.audit_log
              ++ (record {
                id = d.entry_id;
                workspace_id = i.workspace_id;
                actor_user_id = user_id;
                action = InvitationAction.accepted i.role;
                target_id = membership.id;
              }
                  ∷ []);
          outbox = s.outbox;
        },
      )

  unfoldable pub accept_found :
      Uuid → InvitationDraw → Invitation → InvitationStore → Option Membership × InvitationStore
  unfolding join get
  accept_found user_id d i s =
      let (m, after) = join user_id d i (get i.workspace_id user_id s.memberships) s in
      if is_some i.consumed_at || leb i.expires_at d.now then (none, s) else (some m, after)

  -- `AcceptInvitation.execute`; `none` is the InvalidInvitationError.
  unfoldable pub accept_invitation :
      AcceptInvitationCommand
      → InvitationDraw
      → InvitationStore
      → Option Membership × InvitationStore
  unfolding get_invitation accept_found
  accept_invitation c d s = elim (get_invitation (hash c.raw_token) s.invitations) [
    | none ↦ (none, s)
    | some i ↦ accept_found c.accepting_user_id d i s
  ]

-- `RevokeInvitation.execute`
unfoldable pub revoke_invitation :
    RevokeInvitationCommand → InvitationDraw → InvitationStore → InvitationStore
unfolding delete_invitation
revoke_invitation c d s = record s {
  invitations = delete_invitation c.workspace_id c.invitation_id s.invitations;
  audit_log =
      s.audit_log
      ++ (record {
        id = d.entry_id;
        workspace_id = c.workspace_id;
        actor_user_id = c.actor_user_id;
        action = InvitationAction.revoked;
        target_id = c.invitation_id;
      }
          ∷ []);
}
