-- ===== src/Tests/Invites.antt =====
-- An invitation that is accepted, then presented again by someone else.
use aether_ai_workspace.Base.{ℕ, ◌≡◌, refl, false, none, some, [], ◌∷◌, Text, codes, text_eq}
use aether_ai_workspace.Domain.Entities.{Invitation, Membership, viewer, member, owner}
use aether_ai_workspace.Members.{get}
use aether_ai_workspace.Members.Rows.{IsTable}
use aether_ai_workspace.Invitations.{
  InvitationStore, InvitationDraw, AcceptInvitationCommand, get_invitation, accept_invitation,
}
use aether_ai_workspace.Invitations.SingleUse.{
  InvitationStep, invite, accept, IsHashTable, invitation_steps, accept_invitation-single_use,
}
use aether_ai_workspace.Invitations.Joined.{Extends, invitation_steps-Extends}

abbrev plain : Text → Text
plain raw = raw

abbrev founder : Membership
founder = record {
  id = 1;
  workspace_id = 2;
  user_id = 3;
  role = owner;
  created_at = 0;
  updated_at = 0;
}

abbrev waiting : Invitation
waiting = record {
  id = 10;
  workspace_id = 2;
  email = codes "b@b.c";
  role = member;
  token_hash = codes "tok";
  invited_by = 3;
  expires_at = 100;
  consumed_at = none;
  created_at = 0;
}

abbrev desk : InvitationStore
desk = record {
  invitations = waiting ∷ [];
  memberships = founder ∷ [];
  audit_log = [];
  outbox = [];
}

abbrev draws : ℕ → InvitationDraw
draws n = record {
  now = 50;
  now_consume = 51;
  row_time = 50;
  raw_token = codes "other";
  row_id = n;
  entry_id = n;
  email_id = n;
}

abbrev presents : ℕ → AcceptInvitationCommand
presents user_id = record { raw_token = codes "tok"; accepting_user_id = user_id }

abbrev invite_more : InvitationStep
invite_more =
    invite (record { workspace_id = 2; email = codes "d@b.c"; role = viewer; invited_by = 3 })
      (draws 21)

abbrev joined : Membership
joined = record {
  id = 20;
  workspace_id = 2;
  user_id = 4;
  role = member;
  created_at = 50;
  updated_at = 50;
}

is_accepted : (accept_invitation plain (presents 4) (draws 20) desk).0 ≡ some joined
unfolding accept_invitation text_eq
is_accepted = refl

desk-IsHashTable : IsHashTable desk.invitations
unfolding get_invitation
desk-IsHashTable = (refl, tt)

draws_other : text_eq (codes "other") (codes "tok") ≡ false
unfolding text_eq
draws_other = refl

accept_invitation-single_use_example :
    accept_invitation plain (presents 5) (draws 30) (
      invitation_steps plain
        (invite_more ∷ [])
        (accept_invitation plain (presents 4) (draws 20) desk).1)
    ≡ (
      none,
      invitation_steps plain
          (invite_more ∷ [])
          (accept_invitation plain (presents 4) (draws 20) desk).1,
    )
accept_invitation-single_use_example =
    accept_invitation-single_use plain (presents 4) (presents 5) (draws 20) (draws 30) desk joined
      (invite_more ∷ []) desk-IsHashTable is_accepted refl (draws_other, tt)

desk-IsTable : IsTable desk.memberships
unfolding get
desk-IsTable = (refl, tt)

invitation_steps-Extends_example :
    Extends
      (founder ∷ [])
      (invitation_steps plain (accept (presents 4) (draws 20) ∷ invite_more ∷ []) desk).memberships
invitation_steps-Extends_example =
    invitation_steps-Extends plain (accept (presents 4) (draws 20) ∷ invite_more ∷ []) desk
      desk-IsTable
