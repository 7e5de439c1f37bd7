-- ===== src/Domain/Policy.antt =====
-- apps/api/src/aether/domain/policy.py: which role has which capability.
use aether_ai_workspace.Base.{ℕ, ◌≤◌, Bool, true, List, [], ◌∷◌, ◌≡◌, any, arith}
use aether_ai_workspace.Domain.Entities.{MembershipRole, viewer, member, admin, owner, same_role}

-- The keys of the policy map; in the source a capability is its name.
pub data Capability : Type 0 where
  read_knowledge_base create_messages manage_documents manage_members : Capability
  manage_budgets read_audit_log manage_workspace manage_api_keys : Capability

-- `_POLICY`
unfoldable pub policy : Capability → List MembershipRole
policy read_knowledge_base = viewer ∷ member ∷ admin ∷ owner ∷ []
policy create_messages = member ∷ admin ∷ owner ∷ []
policy manage_documents = member ∷ admin ∷ owner ∷ []
policy manage_members = admin ∷ owner ∷ []
policy manage_budgets = admin ∷ owner ∷ []
policy read_audit_log = admin ∷ owner ∷ []
policy manage_workspace = owner ∷ []
policy manage_api_keys = admin ∷ owner ∷ []

unfoldable pub role_may : MembershipRole → Capability → Bool
unfolding policy
role_may role capability = any (same_role role) (policy capability)

-- `MembershipRole` is declared from the least to the most privileged role.
abbrev pub rank : MembershipRole → ℕ
rank viewer = 0
rank member = 1
rank admin = 2
rank owner = 3

-- A role that is ranked at least as high has every capability of the lower role.
pub role_may_mono :
    (low high : MembershipRole) (c : Capability)
    → rank low ≤ rank high
    → role_may low c ≡ true
    → role_may high c ≡ true
unfolding role_may
role_may_mono low high c h may = ground arith
