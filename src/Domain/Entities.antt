-- ===== src/Domain/Entities.antt =====
-- apps/api/src/aether/domain/entities.py: the entities that the modelled use cases read and write.
-- A UUID is a number, a `datetime` the number of its microseconds, a `str` its code points.
use aether_ai_workspace.Base.{◌*◌, ℕ, Bool, true, false, Option, List, Text, ◌≡◌, arith}

abbrev pub Uuid : Type 0
Uuid = ℕ

-- Microseconds since an epoch.
abbrev pub Instant : Type 0
Instant = ℕ

abbrev pub microseconds : ℕ → ℕ
microseconds seconds = seconds * 1000000

pub data MembershipRole : Type 0 where
  viewer member admin owner : MembershipRole

-- `a is b` and `a == b` on roles
abbrev pub same_role : MembershipRole → MembershipRole → Bool
same_role MembershipRole.viewer MembershipRole.viewer = true
same_role MembershipRole.member MembershipRole.member = true
same_role MembershipRole.admin MembershipRole.admin = true
same_role MembershipRole.owner MembershipRole.owner = true
same_role _ _ = false

pub record User : Type 0 where
  pub id : Uuid
  pub email : Text
  pub display_name : Text
  pub password_hash : Option Text
  pub status : Text
  pub created_at : Instant
  pub updated_at : Instant

pub record Membership : Type 0 where
  pub id : Uuid
  pub workspace_id : Uuid
  pub user_id : Uuid
  pub role : MembershipRole
  pub created_at : Instant
  pub updated_at : Instant

pub record Invitation : Type 0 where
  pub id : Uuid
  pub workspace_id : Uuid
  pub email : Text
  pub role : MembershipRole
  pub token_hash : Text
  pub invited_by : Uuid
  pub expires_at : Instant
  pub consumed_at : Option Instant
  pub created_at : Instant

pub data ApiKeyScope : Type 0 where
  chat_write kb_read : ApiKeyScope

pub record ApiKey : Type 0 where
  pub id : Uuid
  pub workspace_id : Uuid
  pub prefix : Text
  pub secret_hash : Text
  pub name : Text
  pub scopes : List ApiKeyScope
  pub created_by : Uuid
  pub expires_at : Option Instant
  pub revoked_at : Option Instant
  pub last_used_at : Option Instant
  pub created_at : Instant

pub record PasswordResetToken : Type 0 where
  pub id : Uuid
  pub user_id : Uuid
  pub token_hash : Text
  pub expires_at : Instant
  pub consumed_at : Option Instant
  pub created_at : Instant

pub data MessageRole : Type 0 where
  user assistant system : MessageRole

pub data MessageStatus : Type 0 where
  complete partial cancelled : MessageStatus

pub record Message : Type 0 where
  pub id : Uuid
  pub workspace_id : Uuid
  pub thread_id : Uuid
  pub seq : ℕ
  pub role : MessageRole
  pub content : Text
  pub status : MessageStatus
  pub client_message_id : Option Text
  pub model : Option Text
  pub prompt_tokens : Option ℕ
  pub completion_tokens : Option ℕ
  pub cost_microcents : Option ℕ
  pub grounded : Bool
  pub created_at : Instant

pub record MemorySummary : Type 0 where
  pub id : Uuid
  pub workspace_id : Uuid
  pub thread_id : Uuid
  pub upto_seq : ℕ
  pub content : Text
  pub model : Text
  pub token_count : ℕ
  pub created_at : Instant
  pub updated_at : Instant

pub record Citation : Type 0 where
  pub id : Uuid
  pub workspace_id : Uuid
  pub message_id : Uuid
  pub chunk_id : Option Uuid
  pub document_title : Text
  pub section_path : Text
  pub page_start : Option ℕ
  pub page_end : Option ℕ
  pub created_at : Instant

pub record CitationDraft : Type 0 where
  pub chunk_id : Option Uuid
  pub document_title : Text
  pub section_path : Text
  pub page_start : Option ℕ
  pub page_end : Option ℕ

pub data UsageEventKind : Type 0 where
  chat embed rewrite compact : UsageEventKind

pub record UsageEvent : Type 0 where
  pub id : Uuid
  pub workspace_id : Uuid
  pub user_id : Option Uuid
  pub kind : UsageEventKind
  pub model : Text
  pub prompt_tokens : ℕ
  pub completion_tokens : ℕ
  pub cost_microcents : ℕ
  pub generation_id : Option Uuid
  pub occurred_at : Instant

-- The `date` is the number of its days.
pub record Budget : Type 0 where
  pub workspace_id : Uuid
  pub monthly_limit_microcents : ℕ
  pub soft_pct : ℕ
  pub current_period_start : ℕ
  pub settled_microcents : ℕ
  pub updated_at : Instant

pub record RefreshToken : Type 0 where
  pub id : Uuid
  pub user_id : Uuid
  pub family_id : Uuid
  pub token_hash : Text
  pub device_fingerprint : Text
  pub used_at : Option Instant
  pub successor_id : Option Uuid
  pub expires_at : Instant
  pub revoked_at : Option Instant
  pub created_at : Instant

pub record ChunkDraft : Type 0 where
  pub content : Text
  pub section_path : Text
  pub page_start : Option ℕ
  pub page_end : Option ℕ
  pub char_start : ℕ
  pub char_end : ℕ
  pub token_count : ℕ

pub same_role→≡ : (a b : MembershipRole) → same_role a b ≡ true → a ≡ b
same_role→≡ MembershipRole.viewer b h = ground arith
same_role→≡ _ b h = ground arith
