-- ===== src/Idempotency.antt =====
-- Idempotency keys of requests: apps/api/src/aether/http/idempotency.py over
-- adapters/redis/idempotency.py. The route's own handler is a parameter, as is the hash of bodies. A
-- request comes with the readings of Redis's clock at its two commands; requests that interleave are
-- not modelled. A Redis key stands for its text.
pub mod Replays
use aether_ai_workspace.Base.{
  ℕ, ◌+◌, ◌*◌, Bool, true, false, ◌&&◌, Option, none, some, List, [], ◌∷◌, Text, text_eq, ◌==◌, leb,
  ltb, if◌then◌else◌, or_else,
}
use aether_ai_workspace.Domain.Entities.{Uuid, Instant, microseconds}

pub record IdempotencySnapshot : Type 0 where
  pub body_sha256 : Text
  pub status_code : ℕ
  pub response_body : Text

-- `_TTL_SECONDS` is a day.
abbrev pub ttl_seconds : ℕ
ttl_seconds = 24 * 60 * 60

-- What the guard reads of a request, and Redis's time when the snapshot is looked up and when one is
-- stored.
pub record KeyedRequest : Type 0 where
  pub path_workspace_id : Option Uuid
  pub user_id : Uuid
  pub idempotency_key : Option Text
  pub body : Text
  pub looked_up_at : Instant
  pub stored_at : Instant

pub record Response : Type 0 where
  pub status_code : ℕ
  pub body : Text

-- `f"idempotency:{identity}:{idempotency_key}"`
pub record RedisKey : Type 0 where
  pub identity : Uuid
  pub key : Text

abbrev pub same_key : RedisKey → RedisKey → Bool
same_key a b = a.identity == b.identity && text_eq a.key b.key

-- A stored snapshot, with the time at which Redis drops it.
pub record Expiring : Type 0 where
  pub snapshot : IdempotencySnapshot
  pub expires_at : Instant

abbrev pub Snapshots : Type 0
Snapshots = List (RedisKey × Expiring)

-- What is stored under a key, expired or not.
unfoldable pub entry_of : RedisKey → Snapshots → Option Expiring
unfolding text_eq
entry_of k [] = none
entry_of k ((k', v) ∷ store) = if same_key k' k then some v else entry_of k store

-- `RedisIdempotencyStore.get`: from its expiry on, Redis does not return an entry.
unfoldable pub get_snapshot : RedisKey → Instant → Snapshots → Option IdempotencySnapshot
unfolding entry_of
get_snapshot k now store = elim (entry_of k store) [
  | none ↦ none
  | some e ↦ if ltb now e.expires_at then some e.snapshot else none
]

-- What `ex=ttl_seconds` says of a snapshot that is stored at `now`.
abbrev pub expiring : IdempotencySnapshot → ℕ → Instant → Expiring
expiring v ttl now = record { snapshot = v; expires_at = now + microseconds ttl }

-- An entry under a key, in place of the one that is there.
unfoldable pub put_entry : RedisKey → Expiring → Snapshots → Snapshots
unfolding text_eq
put_entry k v [] = (k, v) ∷ []
put_entry k v ((k', w) ∷ store) =
    let rest = put_entry k v store in if same_key k' k then (k', v) ∷ store else (k', w) ∷ rest

-- `RedisIdempotencyStore.set`
unfoldable pub set_snapshot : RedisKey → IdempotencySnapshot → ℕ → Instant → Snapshots → Snapshots
unfolding put_entry
set_snapshot k v ttl now store = put_entry k (expiring v ttl now) store

-- What the guard decides.
pub data GuardDecision : Type 0 where
  unguarded : GuardDecision
  pending : (redis_key : RedisKey) (body_sha256 : Text) → GuardDecision
  replay : (status_code : ℕ) (body : Text) → GuardDecision
  conflict : (idempotency_key : Text) → GuardDecision

-- What the caller gets: the route's response, or one of the guard's two exceptions.
pub data Reply : Type 0 where
  responded : Response → Reply
  replayed : (status_code : ℕ) (body : Text) → Reply
  key_conflict : (idempotency_key : Text) → Reply

unfoldable pub decide_existing : Text → RedisKey → Text → Option IdempotencySnapshot → GuardDecision
unfolding text_eq
decide_existing idempotency_key k body_sha256 none = GuardDecision.pending k body_sha256
decide_existing idempotency_key k body_sha256 (some existing) =
    if text_eq existing.body_sha256 body_sha256
    then GuardDecision.replay existing.status_code existing.response_body
    else GuardDecision.conflict idempotency_key

abbrev pub is_success : ℕ → Bool
is_success status_code = leb 200 status_code && ltb status_code 300

-- The key that a request uses, if its header is there and is not empty.
unfoldable pub redis_key_of : KeyedRequest → Option RedisKey
redis_key_of r = elim r.idempotency_key [
  | none ↦ none
  | some [] ↦ none
  | some (c ∷ key) ↦
      some (record { identity = or_else r.path_workspace_id r.user_id; key = c ∷ key })
]

module _ {W : Type 0} (hash : Text → Text) (handler : KeyedRequest → W → Response × W) where
  -- `idempotency_guard`
  unfoldable pub idempotency_guard : KeyedRequest → Snapshots → GuardDecision
  unfolding redis_key_of get_snapshot decide_existing
  idempotency_guard r store = elim (redis_key_of r) [
    | none ↦ GuardDecision.unguarded
    | some k ↦ decide_existing k.key k (hash r.body) (get_snapshot k r.looked_up_at store)
  ]

  -- The snapshot of a response that succeeded.
  unfoldable pub store_response : RedisKey → Text → Response → Instant → Snapshots → Snapshots
  unfolding set_snapshot
  store_response k body_sha256 response now store =
      let stored =
        set_snapshot k
          (record {
            body_sha256 = body_sha256;
            status_code = response.status_code;
            response_body = response.body;
          })
          ttl_seconds now store in
      if is_success response.status_code then stored else store

  -- The guard's decision, then the route: `IdempotencyAwareRoute` over `custom_handler`.
  unfoldable pub carry_out : KeyedRequest → GuardDecision → W × Snapshots → Reply × (W × Snapshots)
  unfolding store_response
  carry_out r GuardDecision.unguarded (world, store) =
      let (response, after) = handler r world in (Reply.responded response, (after, store))
  carry_out r (GuardDecision.pending k body_sha256) (world, store) =
      let (response, after) = handler r world in
      (Reply.responded response, (after, store_response k body_sha256 response r.stored_at store))
  carry_out r (GuardDecision.replay status_code body) s = (Reply.replayed status_code body, s)
  carry_out r (GuardDecision.conflict key) s = (Reply.key_conflict key, s)

  unfoldable pub handle : KeyedRequest → W × Snapshots → Reply × (W × Snapshots)
  unfolding idempotency_guard carry_out
  handle r s = carry_out r (idempotency_guard r s.1) s

  unfoldable pub handle_all : List KeyedRequest → W × Snapshots → W × Snapshots
  unfolding handle
  handle_all [] s = s
  handle_all (r ∷ rs) s = handle_all rs (handle r s).1
