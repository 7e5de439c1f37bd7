-- ===== src/Members.antt =====
-- Membership management: apps/api/src/aether/app/workspaces/manage_members.py over the table of
-- apps/api/src/aether/adapters/postgres/membership_repository.py. A use case runs in the request's
-- transaction, here one step on the rows and the audit log; two transactions that interleave
-- are not modelled. A use case that raises leaves the store as it was.
pub mod Rows
pub mod Owners
use aether_ai_workspace.Base.{
  ℕ, zero, suc, ◌+◌, ◌<◌, Bool, true, false, not, ◌&&◌, Option, none, some, List, [], ◌∷◌, ◌++◌,
  ◌==◌, ltb, leb, if◌then◌else◌, length,
}
use aether_ai_workspace.Domain.Entities.{
  Uuid, Instant, Membership, MembershipRole, owner, same_role,
}

-- The actions that these use cases write to the audit log, with their metadata.
pub data AuditAction : Type 0 where
  role_changed : (old_role new_role : MembershipRole) → AuditAction
  removed : (role : MembershipRole) → AuditAction

pub record AuditEntry : Type 0 where
  pub id : Uuid
  pub workspace_id : Uuid
  pub actor_user_id : Uuid
  pub action : AuditAction
  pub target_id : Uuid

pub record Store : Type 0 where
  pub memberships : List Membership
  pub audit_log : List AuditEntry

pub data MemberError : Type 0 where
  membership_not_found : (user_id : Uuid) → MemberError
  last_owner_protection : (workspace_id : Uuid) → MemberError
  assertion_failed : MemberError

pub data Outcome (A : Type 0) : Type 0 where
  raised : MemberError → Outcome A
  returned : A → Store → Outcome A

-- The condition `workspace_id = $1 AND user_id = $2`.
abbrev pub is_key : Uuid → Uuid → Membership → Bool
is_key w u m = (m.workspace_id == w) && (m.user_id == u)

abbrev pub has_role : Uuid → MembershipRole → Membership → Bool
has_role w r m = (m.workspace_id == w) && same_role m.role r

unfoldable pub get : Uuid → Uuid → List Membership → Option Membership
get w u [] = none
get w u (m ∷ ms) = if is_key w u m then some m else get w u ms

unfoldable pub count_by_role : Uuid → MembershipRole → List Membership → ℕ
count_by_role w r [] = 0
count_by_role w r (m ∷ ms) =
    let rest = count_by_role w r ms in if has_role w r m then suc rest else rest

abbrev pub with_role : MembershipRole → Instant → Membership → Membership
with_role r now m = record {
  id = m.id;
  workspace_id = m.workspace_id;
  user_id = m.user_id;
  role = r;
  created_at = m.created_at;
  updated_at = now;
}

unfoldable pub update_role :
    Uuid → Uuid → MembershipRole → Instant → List Membership → List Membership
update_role w u r now [] = []
update_role w u r now (m ∷ ms) =
    let rest = update_role w u r now ms in
    if is_key w u m then with_role r now m ∷ rest else m ∷ rest

unfoldable pub delete : Uuid → Uuid → List Membership → List Membership
delete w u [] = []
delete w u (m ∷ ms) = let rest = delete w u ms in if is_key w u m then rest else m ∷ rest

unfoldable pub list_by_workspace : Uuid → List Membership → List Membership
list_by_workspace w [] = []
list_by_workspace w (m ∷ ms) =
    let rest = list_by_workspace w ms in if m.workspace_id == w then m ∷ rest else rest

pub record UpdateMemberRoleCommand : Type 0 where
  pub workspace_id : Uuid
  pub target_user_id : Uuid
  pub new_role : MembershipRole
  pub actor_user_id : Uuid

pub record RemoveMemberCommand : Type 0 where
  pub workspace_id : Uuid
  pub target_user_id : Uuid
  pub actor_user_id : Uuid

-- What `record` appends.
abbrev pub entry : Uuid → Uuid → Uuid → AuditAction → Uuid → AuditEntry
entry new_id w actor action target = record {
  id = new_id;
  workspace_id = w;
  actor_user_id = actor;
  action = action;
  target_id = target;
}

-- The rest of the use case after its guards; `UPDATE ... RETURNING` gives the row it updated.
unfoldable pub change_role :
    UpdateMemberRoleCommand → Membership → Uuid → Instant → Store → Outcome Membership
unfolding update_role get
change_role c current new_id now s =
    let rows = update_role c.workspace_id c.target_user_id c.new_role now s.memberships in
    let log =
      s.audit_log
      ++ (entry new_id c.workspace_id c.actor_user_id (role_changed current.role c.new_role)
            c.target_user_id
          ∷ []) in
    elim (get c.workspace_id c.target_user_id rows) [
      | none ↦ raised assertion_failed
      | some updated ↦ returned updated (record { memberships = rows; audit_log = log })
    ]

-- `UpdateMemberRole.execute`
unfoldable pub update_member_role :
    UpdateMemberRoleCommand → Uuid → Instant → Store → Outcome Membership
unfolding change_role get count_by_role
update_member_role c new_id now s = elim (get c.workspace_id c.target_user_id s.memberships) [
  | none ↦ raised (membership_not_found c.target_user_id)
  | some current ↦
      if same_role current.role owner
        && not (same_role c.new_role owner)
        && leb (count_by_role c.workspace_id owner s.memberships) 1
      then raised (last_owner_protection c.workspace_id)
      else change_role c current new_id now s
]

-- `RemoveMember.execute`
unfoldable pub remove_member : RemoveMemberCommand → Uuid → Store → Outcome Unit
unfolding delete get count_by_role
remove_member c new_id s = elim (get c.workspace_id c.target_user_id s.memberships) [
  | none ↦ raised (membership_not_found c.target_user_id)
  | some current ↦
      if same_role current.role owner && leb (count_by_role c.workspace_id owner s.memberships) 1
      then raised (last_owner_protection c.workspace_id)
      else returned tt (record {
        memberships = delete c.workspace_id c.target_user_id s.memberships;
        audit_log =
            s.audit_log
            ++ (entry new_id c.workspace_id c.actor_user_id (removed current.role) c.target_user_id
                ∷ []);
      })
]

-- `ListMembers.execute`; the rows are kept in the order of their creation.
unfoldable pub list_members : Uuid → Store → List Membership
unfolding list_by_workspace
list_members w s = list_by_workspace w s.memberships
