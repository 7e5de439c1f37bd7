-- ===== src/Idempotency/Replays.antt =====
-- A request that is sent again with its key is answered from its snapshot.
use aether_ai_workspace.Base.{
  ◌<◌, ◌+◌, false, ap, All, arith, ◌≡◌, refl, sym, ◌∙◌, true, none, some, List, [], ◌∷◌, Text,
  text_eq, text_eq_refl, ==_refl, Bool-cases, Option-cases, inl, inr,
}
use aether_ai_workspace.Domain.Entities.{Instant, microseconds}
use aether_ai_workspace.Idempotency.{
  Expiring, KeyedRequest, Response, RedisKey, same_key, Snapshots, get_snapshot, entry_of,
  put_entry, expiring, ttl_seconds, set_snapshot, Reply, decide_existing, is_success, redis_key_of,
  idempotency_guard, store_response, carry_out, handle, handle_all,
}

same_key_refl : (k : RedisKey) → same_key k k ≡ true
same_key_refl k = let e = text_eq_refl k.key in let f = ==_refl k.identity in ground (arith, e, f)

entry-put :
    (k : RedisKey) (v : Expiring) (store : Snapshots) → entry_of k (put_entry k v store) ≡ some v
unfolding entry_of put_entry
entry-put k v [] = rw (same_key_refl k) refl
entry-put k v ((k', w) ∷ store) = elim (Bool-cases (same_key k' k)) [
  | inl here ↦ rw (here, here) refl
  | inr other ↦ rw (other, other) (entry-put k v store)
]

-- Before its expiry an entry is returned.
get-live :
    (k : RedisKey) (now : Instant) (v : Expiring) (store : Snapshots)
    → entry_of k store ≡ some v
    → now < v.expires_at
    → get_snapshot k now store ≡ some v.snapshot
unfolding get_snapshot
get-live k now v store e early = rw (get_snapshot, e) (ground arith)

get-skip :
    (k : RedisKey) (now : Instant) (x : RedisKey) (w : Expiring) (store : Snapshots)
    → same_key x k ≡ false
    → get_snapshot k now ((x, w) ∷ store) ≡ get_snapshot k now store
unfolding get_snapshot entry_of
get-skip k now x w store other = rw (get_snapshot, entry_of, other) refl

-- A snapshot that is stored where none is returned takes no other key's live entry away.
entry-put_other :
    (k k' : RedisKey) (now : Instant) (v v' : Expiring) (store : Snapshots)
    → entry_of k store ≡ some v
    → now < v.expires_at
    → get_snapshot k' now store ≡ none
    → entry_of k (put_entry k' v' store) ≡ some v
unfolding entry_of put_entry get_snapshot
entry-put_other k k' now v v' [] e early absent = absurd (cc e)
entry-put_other k k' now v v' ((x, w) ∷ store) e early absent = elim (Bool-cases (same_key x k')) [
  | inl replaced ↦ elim (Bool-cases (same_key x k)) [
    | inl here ↦
        let is_v : some w ≡ some v = sym (rw here refl) ∙ e in
        let same : w ≡ v = cc in
        let found : entry_of k' ((x, w) ∷ store) ≡ some v = rw replaced (ap some same) in
        let live = get-live k' now v ((x, w) ∷ store) found early in
        let clash : some v.snapshot ≡ none = sym live ∙ absent in absurd (cc clash)
    | inr skip ↦ rw (replaced, skip) (sym (rw skip refl) ∙ e)
  ]
  | inr other ↦
      let later : get_snapshot k' now store ≡ none =
        sym (get-skip k' now x w store other) ∙ absent in
      elim (Bool-cases (same_key x k)) [
        | inl here ↦ rw (other, here) (sym (rw here refl) ∙ e)
        | inr skip ↦
            let rest : entry_of k store ≡ some v = sym (rw skip refl) ∙ e in
            rw (other, skip) (entry-put_other k k' now v v' store rest early later)
      ]
]

-- Requests whose look-up comes before the time.
abbrev pub AllBefore : Instant → List KeyedRequest → Type 0
AllBefore time = All (λ r. r.looked_up_at < time)

module _ {W : Type 0} (hash : Text → Text) (handler : KeyedRequest → W → Response × W) where
  -- An entry stays, whatever is requested before it expires.
  handle-keeps :
      (k : RedisKey) (v : Expiring) (r : KeyedRequest) (s : W × Snapshots)
      → entry_of k s.1 ≡ some v
      → r.looked_up_at < v.expires_at
      → entry_of k (handle hash handler r s).1.1 ≡ some v
  unfolding handle carry_out idempotency_guard decide_existing store_response set_snapshot
  handle-keeps k v r s found early = elim (Option-cases (redis_key_of r)) [
    | inl e ↦ rw (handle, idempotency_guard, e) found
    | inr (k', e) ↦ elim (Option-cases (get_snapshot k' r.looked_up_at s.1)) [
      | inl absent ↦ elim (Bool-cases (is_success (handler r s.0).0.status_code)) [
        | inl stored ↦
            rw (handle, idempotency_guard, e, decide_existing, absent, store_response, stored)
              (entry-put_other k k' r.looked_up_at v _ s.1 found early absent)
        | inr failed ↦
            rw (handle, idempotency_guard, e, decide_existing, absent, store_response, failed) found
      ]
      | inr (existing, there) ↦ elim (Bool-cases (text_eq existing.body_sha256 (hash r.body))) [
        | inl same ↦ rw (handle, idempotency_guard, e, there, decide_existing, same) found
        | inr differs ↦ rw (handle, idempotency_guard, e, there, decide_existing, differs) found
      ]
    ]
  ]

  handle_all-keeps :
      (k : RedisKey) (v : Expiring) (rs : List KeyedRequest) (s : W × Snapshots)
      → entry_of k s.1 ≡ some v
      → AllBefore v.expires_at rs
      → entry_of k (handle_all hash handler rs s).1 ≡ some v
  unfolding handle_all
  handle_all-keeps k v [] s found early = found
  handle_all-keeps k v (r ∷ rs) s found early =
      handle_all-keeps k v rs (handle hash handler r s).1 (handle-keeps k v r s found early.0)
        early.1

  -- What is stored of a request's response, and until when.
  abbrev entry_for : KeyedRequest → Response → Expiring
  entry_for r response =
      expiring
        (record {
          body_sha256 = hash r.body;
          status_code = response.status_code;
          response_body = response.body;
        })
        ttl_seconds r.stored_at

  handle-stores :
      (k : RedisKey) (r : KeyedRequest) (s : W × Snapshots)
      → redis_key_of r ≡ some k
      → get_snapshot k r.looked_up_at s.1 ≡ none
      → is_success (handler r s.0).0.status_code ≡ true
      → entry_of k (handle hash handler r s).1.1 ≡ some (entry_for r (handler r s.0).0)
  unfolding handle carry_out idempotency_guard decide_existing store_response set_snapshot
  handle-stores k r s keyed absent succeeds =
      rw (handle, idempotency_guard, keyed, absent, decide_existing, store_response, succeeds)
        (entry-put k (entry_for r (handler r s.0).0) s.1)

  -- A request with a key that has no live snapshot runs the route; if that succeeds, then within a
  -- day of the storing of its snapshot, after any requests that look theirs up in that day, a request
  -- with the same key and a body of the same hash gets the same status and body again, and nothing
  -- else happens: neither the route's world nor the snapshots change.
  pub handle-replays :
      (k : RedisKey) (r r' : KeyedRequest) (rs : List KeyedRequest) (s : W × Snapshots)
      → redis_key_of r ≡ some k
      → redis_key_of r' ≡ some k
      → hash r'.body ≡ hash r.body
      → get_snapshot k r.looked_up_at s.1 ≡ none
      → is_success (handler r s.0).0.status_code ≡ true
      → AllBefore (r.stored_at + microseconds ttl_seconds) rs
      → r'.looked_up_at < r.stored_at + microseconds ttl_seconds
      → ((handle hash handler r s).0 ≡ Reply.responded (handler r s.0).0)
        × (handle hash handler r' (handle_all hash handler rs (handle hash handler r s).1) ≡ (
          Reply.replayed (handler r s.0).0.status_code (handler r s.0).0.body,
          handle_all hash handler rs (handle hash handler r s).1,
        ))
  unfolding handle carry_out idempotency_guard decide_existing
  handle-replays k r r' rs s keyed keyed' same absent succeeds within early =
      let later = handle_all hash handler rs (handle hash handler r s).1 in
      let v = entry_for r (handler r s.0).0 in
      let kept =
        handle_all-keeps k v rs (handle hash handler r s).1
          (handle-stores k r s keyed absent succeeds) within in
      let found = get-live k r'.looked_up_at v later.1 kept early in
      (
        rw (handle, idempotency_guard, keyed, absent, decide_existing) refl,
        rw
            (
              handle,
              idempotency_guard,
              keyed',
              found,
              same,
              decide_existing,
              text_eq_refl (hash r.body),
            )
            refl,
      )
