-- ===== src/Tests/Retries.antt =====
-- A creation that is sent twice with one key; the world is the number of creations.
use aether_ai_workspace.Base.{ℕ, suc, ◌≡◌, refl, none, some, [], ◌∷◌, Text, codes, arith}
use aether_ai_workspace.Domain.Entities.{microseconds}
use aether_ai_workspace.Idempotency.{
  KeyedRequest, Response, RedisKey, Snapshots, Reply, get_snapshot, redis_key_of, handle,
  handle_all,
}
use aether_ai_workspace.Idempotency.Replays.{handle-replays}

-- A request, and the second of its day at which Redis is asked and told.
abbrev creation : Text → ℕ → KeyedRequest
creation key second = record {
  path_workspace_id = some 7;
  user_id = 1;
  idempotency_key = some key;
  body = codes "name";
  looked_up_at = microseconds second;
  stored_at = microseconds second;
}

abbrev creates : KeyedRequest → ℕ → Response × ℕ
creates r n = ((record { status_code = 201; body = codes "made" }), suc n)

abbrev plain : Text → Text
plain t = t

abbrev empty : ℕ × Snapshots
empty = (0, [])

abbrev used : RedisKey
used = record { identity = 7; key = codes "k1" }

abbrev first : KeyedRequest
first = creation (codes "k1") 0

-- Another one between, and the same again a second before the day is over.
abbrev another : KeyedRequest
another = creation (codes "k2") 60

abbrev again : KeyedRequest
again = creation (codes "k1") 86399

is_keyed : redis_key_of first ≡ some used
unfolding redis_key_of
is_keyed = refl

is_keyed_again : redis_key_of again ≡ some used
unfolding redis_key_of
is_keyed_again = refl

is_absent : get_snapshot used 0 [] ≡ none
unfolding get_snapshot
is_absent = refl

abbrev before : ℕ × Snapshots
before = handle_all plain creates (another ∷ []) (handle plain creates first empty).1

handle-replays_example :
    ((handle plain creates first empty).0
      ≡ Reply.responded (record { status_code = 201; body = codes "made" }))
    × (handle plain creates again before ≡ (Reply.replayed 201 (codes "made"), before))
handle-replays_example =
    handle-replays plain creates used first again (another ∷ []) empty is_keyed is_keyed_again refl
      is_absent refl (omega arith, tt) (omega arith)

-- When the day is over, the same request is carried out again.
is_repeated :
    (handle plain creates (creation (codes "k1") 86400) before).0
    ≡ Reply.responded (record { status_code = 201; body = codes "made" })
unfolding handle handle_all
is_repeated = refl
