-- ===== src/Tests/Access.antt =====
-- Runs of the policy and of the members' commands.
use aether_ai_workspace.Base.{◌⊎◌, none, some, ◌+◌, ◌≡◌, refl, true, List, [], ◌∷◌, arith}
use aether_ai_workspace.Domain.Entities.{Uuid, Instant, Membership, MembershipRole, member, owner}
use aether_ai_workspace.Domain.Policy.{manage_documents, role_may, role_may_mono}
use aether_ai_workspace.Members.{
  UpdateMemberRoleCommand, update_member_role, raised, returned, membership_not_found,
  last_owner_protection, get, count_by_role, with_role, Store,
}
use aether_ai_workspace.Members.Owners.{
  update_member_role-ends, IsLastOwner, Command, change, remove, execute_all, IsOwned,
  execute_all-IsOwned,
}

role_may_mono_example : role_may owner manage_documents ≡ true
role_may_mono_example =
    role_may_mono member owner manage_documents (omega arith) (unfold role_may in refl)

abbrev row : Uuid → MembershipRole → Membership
row u r = record {
  id = 100 + u;
  workspace_id = 1;
  user_id = u;
  role = r;
  created_at = 0;
  updated_at = 0;
}

abbrev two_members : Store
two_members = record { memberships = row 7 owner ∷ row 8 member ∷ []; audit_log = [] }

-- The owner tries to leave, promotes the other member, and leaves.
abbrev handover : List (Command × Uuid × Instant)
handover =
    (remove (record { workspace_id = 1; target_user_id = 7; actor_user_id = 7 }), 50, 10)
    ∷ (
      change (record { workspace_id = 1; target_user_id = 8; new_role = owner; actor_user_id = 7 }),
      51,
      11,
    )
    ∷ (remove (record { workspace_id = 1; target_user_id = 7; actor_user_id = 7 }), 52, 12)
    ∷ []

execute_all-IsOwned_example : IsOwned 1 (execute_all handover two_members)
unfolding get count_by_role
execute_all-IsOwned_example =
    execute_all-IsOwned 1 handover two_members ((refl, (refl, tt)), omega arith)

abbrev promotion : UpdateMemberRoleCommand
promotion = record { workspace_id = 1; target_user_id = 8; new_role = owner; actor_user_id = 7 }

update_member_role-ends_example :
    (get 1 8 two_members.memberships ≡ none)
      × (update_member_role promotion 50 10 two_members ≡ raised (membership_not_found 8))
    ⊎ ((current : Membership) × (get 1 8 two_members.memberships ≡ some current)
        × IsLastOwner promotion current two_members
        × (update_member_role promotion 50 10 two_members ≡ raised (last_owner_protection 1)))
    ⊎ (current : Membership) × (s' : Store) × (get 1 8 two_members.memberships ≡ some current)
      × (¬ (IsLastOwner promotion current two_members))
      × (update_member_role promotion 50 10 two_members ≡ returned (with_role owner 10 current) s')
      × (get 1 8 s'.memberships ≡ some (with_role owner 10 current))
update_member_role-ends_example = update_member_role-ends promotion 50 10 two_members
