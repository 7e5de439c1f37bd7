-- ===== src/ApiKeys/Issued.antt =====
-- A key that was just issued is recognised.
use aether_ai_workspace.Base.{
  ◌≡◌, refl, sym, ◌∙◌, ap, true, false, none, some, List, [], ◌∷◌, ◌++◌, Text, codes, text_eq,
  text_eq_refl, ◌==◌, leb, length, take, length-append, take-length-append, Bool-cases, inl, inr,
  arith, All,
}
use aether_ai_workspace.Domain.Entities.{Instant, ApiKey}
use aether_ai_workspace.ApiKeys.{
  prefix_len, underscore, generate_api_key, split_once, extract_prefix, get_by_prefix, KeyStore,
  CreateApiKeyCommand, KeyDraw, authenticated, new_key, create_api_key, verify_found,
  verify_api_key,
}

-- The first underscore behind a text without one.
split_once-front :
    (s t : Text)
    → All (λ c. (c == underscore) ≡ false) s
    → split_once (s ++ (underscore ∷ t)) ≡ some (s, t)
unfolding split_once
split_once-front [] t h = refl
split_once-front (c ∷ s) t h = rw (h.0, split_once-front s t h.1) refl

extract_prefix-parts :
    (raw_key rest env prefix secret : Text)
    → split_once raw_key ≡ some (codes "aeth", rest)
    → split_once rest ≡ some (env, prefix ++ secret)
    → length prefix ≡ prefix_len
    → extract_prefix raw_key ≡ some prefix
unfolding extract_prefix text_eq
extract_prefix-parts raw_key rest env prefix secret outer inner size =
    let long : leb prefix_len (length (prefix ++ secret)) ≡ true =
      ground (arith, length-append prefix secret) in
    let front : take prefix_len (prefix ++ secret) ≡ prefix =
      ap (λ n. take n (prefix ++ secret)) (sym size) ∙ take-length-append prefix secret in
    rw (extract_prefix, outer, inner, long) (ap some front)

-- Issuing and reading agree on the prefix.
extract_prefix-generate :
    (hash : Text → Text) (env prefix secret : Text)
    → All (λ c. (c == underscore) ≡ false) env
    → length prefix ≡ prefix_len
    → extract_prefix (generate_api_key hash env prefix secret).raw_key ≡ some prefix
unfolding generate_api_key
extract_prefix-generate hash env prefix secret plain size =
    extract_prefix-parts _ (env ++ (underscore ∷ prefix ++ secret)) env prefix secret
      (split_once-front (codes "aeth") _ (refl, (refl, (refl, (refl, tt)))))
      (split_once-front env (prefix ++ secret) plain) size

get_by_prefix-fresh :
    (k : ApiKey) (ks : List ApiKey)
    → get_by_prefix k.prefix ks ≡ none
    → get_by_prefix k.prefix (ks ++ (k ∷ [])) ≡ some k
unfolding get_by_prefix
get_by_prefix-fresh k [] e = rw (text_eq_refl k.prefix) refl
get_by_prefix-fresh k (x ∷ ks) e = elim (Bool-cases (text_eq x.prefix k.prefix)) [
  | inl here ↦ let clash : some x ≡ none = sym (rw here refl) ∙ e in absurd (cc clash)
  | inr other ↦
      let later : get_by_prefix k.prefix ks ≡ none = sym (rw other refl) ∙ e in
      rw other (get_by_prefix-fresh k ks later)
]

-- Where the environment's name has no underscore and the random prefix is new to the table, a key
-- that does not expire is accepted as soon as it is issued, for its workspace with its scopes.
pub verify_api_key-create :
    (hash : Text → Text) (env : Text) (c : CreateApiKeyCommand) (d : KeyDraw) (s : KeyStore)
    (now : Instant)
    → All (λ x. (x == underscore) ≡ false) env
    → length d.prefix ≡ prefix_len
    → get_by_prefix d.prefix s.keys ≡ none
    → c.expires_at ≡ none
    → (verify_api_key hash env
        (create_api_key hash env c d s).0.raw_key
        now
        (create_api_key hash env c d s).1.keys).0
      ≡ authenticated
          (record { api_key_id = d.key_id; workspace_id = c.workspace_id; scopes = c.scopes })
unfolding verify_api_key create_api_key
verify_api_key-create hash env c d s now plain size unused lasting =
    let prefix = extract_prefix-generate hash env d.prefix d.secret plain size in
    let found : get_by_prefix d.prefix (s.keys ++ (new_key hash env c d ∷ []))
        ≡ some (new_key hash env c d) =
      unfold new_key generate_api_key in get_by_prefix-fresh _ s.keys unused in
    rw (verify_api_key, prefix, found)
      (unfold verify_found new_key generate_api_key in rw (text_eq_refl (hash _), lasting) refl)
