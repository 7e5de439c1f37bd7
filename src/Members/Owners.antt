-- ===== src/Members/Owners.antt =====
-- Every workspace that has an owner keeps one, whatever the members' commands.
use aether_ai_workspace.Base.{
  ◌++◌, ◌⊎◌, ℕ, ◌+◌, ◌≤◌, ◌<◌, ◌≡◌, ◌≢◌, true, refl, sym, ◌∙◌, ap, Bool, false, not, ◌&&◌, none,
  some, List, [], ◌∷◌, ◌==◌, leb, if◌then◌else◌, Bool-cases, Option-cases, arith, inl, inr,
}
use aether_ai_workspace.Domain.Entities.{Uuid, Instant, Membership, owner, same_role}
use aether_ai_workspace.Members.{
  entry, role_changed, Store, Outcome, raised, returned, membership_not_found,
  last_owner_protection, get, count_by_role, with_role, update_role, UpdateMemberRoleCommand,
  RemoveMemberCommand, change_role, update_member_role, remove_member,
}
use aether_ai_workspace.Members.Rows.{
  IsTable, tally, renamed, delete-count, update_role-count, update_role-IsTable, delete-IsTable,
  get-updated, get-found,
}

-- One member's command, in its own transaction.
pub data Command : Type 0 where
  change : UpdateMemberRoleCommand → Command
  remove : RemoveMemberCommand → Command

-- The store that a transaction leaves: on an error it is rolled back.
abbrev pub left_by : {A : Type 0} → Outcome A → Store → Store
left_by (raised e) s = s
left_by (returned a s') s = s'

unfoldable pub execute : Command → Uuid → Instant → Store → Store
unfolding update_member_role remove_member
execute (change c) new_id now s = left_by (update_member_role c new_id now s) s
execute (remove c) new_id now s = left_by (remove_member c new_id s) s

-- A sequence of commands, each with its new id and the time.
unfoldable pub execute_all : List (Command × Uuid × Instant) → Store → Store
unfolding execute
execute_all [] s = s
execute_all ((c, new_id, now) ∷ cs) s = execute_all cs (execute c new_id now s)

-- What the commands preserve: the table's constraint, and an owner of the workspace.
abbrev pub IsOwned : Uuid → Store → Type 0
IsOwned w s = IsTable s.memberships × (0 < count_by_role w owner s.memberships)

-- The guard of both commands keeps an owner: only one of several stops being one.
owner-left :
    (w cw n n' : ℕ) (rows : List Membership) (current : Membership) (now_owner : Bool)
    → current.workspace_id ≡ cw
    → same_role current.role owner && not now_owner && leb (count_by_role cw owner rows) 1 ≡ false
    → n' + tally w owner (some current)
      ≡ count_by_role w owner rows + (if (current.workspace_id == w) && now_owner then 1 else 0)
    → 0 < count_by_role w owner rows
    → 0 < n'
owner-left w cw n n' rows current now_owner of_w guard count owned = elim (Bool-cases (cw == w)) [
  | inl here ↦
      let e : cw ≡ w = ground arith in
      let guard' : same_role current.role owner
            && not now_owner
            && leb (count_by_role w owner rows) 1
          ≡ false =
        rw (sym e) guard in
      ground arith
  | inr elsewhere ↦ ground arith
]

change_role-IsOwned :
    (w : Uuid) (c : UpdateMemberRoleCommand) (current : Membership) (new_id : Uuid) (now : Instant)
    (s : Store)
    → IsOwned w s
    → get c.workspace_id c.target_user_id s.memberships ≡ some current
    → same_role current.role owner
        && not (same_role c.new_role owner)
        && leb (count_by_role c.workspace_id owner s.memberships) 1
      ≡ false
    → IsOwned w (left_by (change_role c current new_id now s) s)
unfolding change_role
change_role-IsOwned w c current new_id now s (table, owned) e guard =
    let rows = s.memberships in
    let of_w = get-found c.workspace_id c.target_user_id rows current e in
    let found : get c.workspace_id c.target_user_id
          (update_role c.workspace_id c.target_user_id c.new_role now rows)
        ≡ some (with_role c.new_role now current) =
      get-updated c.workspace_id c.target_user_id c.new_role now rows
      ∙ ap (renamed c.new_role now) e in
    let table' = update_role-IsTable c.workspace_id c.target_user_id c.new_role now rows table in
    let count =
      update_role-count c.workspace_id c.target_user_id w c.new_role owner now rows table in
    rw (left_by, found)
      (
        table',
        owner-left w c.workspace_id 0 _ rows current (same_role c.new_role owner) of_w guard
            (rw e at count) owned,
      )

remove_member-IsOwned :
    (w : Uuid) (c : RemoveMemberCommand) (new_id : Uuid) (s : Store)
    → IsOwned w s
    → IsOwned w (left_by (remove_member c new_id s) s)
unfolding remove_member
remove_member-IsOwned w c new_id s (table, owned) =
    let rows = s.memberships in
    let count = delete-count c.workspace_id c.target_user_id w owner rows table in
    let table' = delete-IsTable c.workspace_id c.target_user_id rows table in
    elim (Option-cases (get c.workspace_id c.target_user_id rows)) [
      | inl e ↦ rw (left_by, e) (table, owned)
      | inr (current, e) ↦
          let of_w = get-found c.workspace_id c.target_user_id rows current e in
          elim (Bool-cases
            (same_role current.role owner && leb (count_by_role c.workspace_id owner rows) 1)) [
              | inl guarded ↦ rw (left_by, e, guarded) (table, owned)
              | inr free ↦
                  rw (left_by, e, free)
                    (
                      table',
                      owner-left w c.workspace_id 0 _ rows current false of_w (ground arith)
                          (ground (arith, rw e at count)) owned,
                    )
            ]
    ]

update_member_role-IsOwned :
    (w : Uuid) (c : UpdateMemberRoleCommand) (new_id : Uuid) (now : Instant) (s : Store)
    → IsOwned w s
    → IsOwned w (left_by (update_member_role c new_id now s) s)
unfolding update_member_role
update_member_role-IsOwned w c new_id now s h =
    let rows = s.memberships in
    elim (Option-cases (get c.workspace_id c.target_user_id rows)) [
      | inl e ↦ rw (left_by, e) h
      | inr (current, e) ↦
          elim (Bool-cases (
            same_role current.role owner
            && not (same_role c.new_role owner)
            && leb (count_by_role c.workspace_id owner rows) 1)) [
              | inl guarded ↦ rw (left_by, e, guarded) h
              | inr free ↦
                  rw (left_by, e, free) (change_role-IsOwned w c current new_id now s h e free)
            ]
    ]

execute-IsOwned :
    (w : Uuid) (c : Command) (new_id : Uuid) (now : Instant) (s : Store)
    → IsOwned w s
    → IsOwned w (execute c new_id now s)
unfolding execute
execute-IsOwned w (remove c) new_id now s h = remove_member-IsOwned w c new_id s h
execute-IsOwned w (change c) new_id now s h = update_member_role-IsOwned w c new_id now s h

-- On a table with one row for a user of a workspace, commands on members, of any workspaces and in
-- any order, those that fail included, never take the last owner from a workspace that has one; and
-- the table keeps one row for a user of a workspace.
pub execute_all-IsOwned :
    (w : Uuid) (cs : List (Command × Uuid × Instant)) (s : Store)
    → IsOwned w s
    → IsOwned w (execute_all cs s)
unfolding execute_all
execute_all-IsOwned w [] s h = h
execute_all-IsOwned w ((c, new_id, now) ∷ cs) s h =
    execute_all-IsOwned w cs (execute c new_id now s) (execute-IsOwned w c new_id now s h)

-- The change takes the owner's role from the only owner of the workspace.
abbrev pub IsLastOwner : UpdateMemberRoleCommand → Membership → Store → Type 0
IsLastOwner c current s =
    (current.role ≡ owner)
    × (c.new_role ≢ owner)
    × (count_by_role c.workspace_id owner s.memberships ≤ 1)

guarded→IsLastOwner :
    (c : UpdateMemberRoleCommand) (current : Membership) (s : Store)
    → same_role current.role owner
        && not (same_role c.new_role owner)
        && leb (count_by_role c.workspace_id owner s.memberships) 1
      ≡ true
    → IsLastOwner c current s
guarded→IsLastOwner c current s h = (ground arith, (λ is. absurd (ground arith)), ground arith)

IsLastOwner→guarded :
    (c : UpdateMemberRoleCommand) (current : Membership) (s : Store)
    → IsLastOwner c current s
    → same_role current.role owner
        && not (same_role c.new_role owner)
        && leb (count_by_role c.workspace_id owner s.memberships) 1
      ≡ true
IsLastOwner→guarded c current s (is, loses, few) = ground arith

-- Changing a role has one of three ends. The target is no member; or it is an owner that would stop
-- being one, no other owner is there, and the change is refused; or it is a member of which that is
-- not so, and the row that is returned is the one that reading it again gives, which is the old row
-- with the new role and the time. The assertion on the row read never fails.
pub update_member_role-ends :
    (c : UpdateMemberRoleCommand) (new_id : Uuid) (now : Instant) (s : Store)
    → (get c.workspace_id c.target_user_id s.memberships ≡ none)
        × (update_member_role c new_id now s ≡ raised (membership_not_found c.target_user_id))
      ⊎ ((current : Membership) × (get c.workspace_id c.target_user_id s.memberships ≡ some current)
          × IsLastOwner c current s
          × (update_member_role c new_id now s ≡ raised (last_owner_protection c.workspace_id)))
      ⊎ (current : Membership) × (s' : Store) × (get c.workspace_id c.target_user_id s.memberships
          ≡ some current)
        × (¬ (IsLastOwner c current s))
        × (update_member_role c new_id now s ≡ returned (with_role c.new_role now current) s')
        × (get c.workspace_id c.target_user_id s'.memberships
            ≡ some (with_role c.new_role now current))
unfolding update_member_role change_role
update_member_role-ends c new_id now s =
    let rows = s.memberships in
    elim (Option-cases (get c.workspace_id c.target_user_id rows)) [
      | inl e ↦ inl (e, rw (update_member_role, e) refl)
      | inr (current, e) ↦
          elim (Bool-cases (
            same_role current.role owner
            && not (same_role c.new_role owner)
            && leb (count_by_role c.workspace_id owner rows) 1)) [
              | inl guarded ↦ inr (
                  inl (
                    current,
                    e,
                    guarded→IsLastOwner c current s guarded,
                    rw (update_member_role, e, guarded) refl,
                  ))
              | inr free ↦
                  let found : get c.workspace_id c.target_user_id
                        (update_role c.workspace_id c.target_user_id c.new_role now rows)
                      ≡ some (with_role c.new_role now current) =
                    get-updated c.workspace_id c.target_user_id c.new_role now rows
                    ∙ ap (renamed c.new_role now) e in
                  let s' : Store = record {
                    memberships = update_role c.workspace_id c.target_user_id c.new_role now rows;
                    audit_log =
                        s.audit_log
                        ++ (entry new_id c.workspace_id c.actor_user_id
                              (role_changed current.role c.new_role) c.target_user_id
                            ∷ []);
                  } in
                  inr (
                    inr (
                      current,
                      s',
                      e,
                      (λ last. absurd (cc (sym (IsLastOwner→guarded c current s last) ∙ free))),
                      rw (update_member_role, e, free, change_role, found) refl,
                      found,
                    ))
            ]
    ]
