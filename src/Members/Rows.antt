-- ===== src/Members/Rows.antt =====
-- The rows of the table of memberships: what an update and a deletion do to the counts and to the
-- constraint of the table.
use aether_ai_workspace.Base.{
  ℕ, ◌+◌, ◌≡◌, refl, sym, ◌∙◌, ap, true, Option, none, some, List, [], ◌∷◌, if◌then◌else◌,
  Bool-cases, arith, inl, inr,
}
use aether_ai_workspace.Domain.Entities.{Uuid, Instant, Membership, MembershipRole}
use aether_ai_workspace.Members.{
  is_key, has_role, get, count_by_role, with_role, update_role, delete,
}

-- The constraint `UNIQUE (workspace_id, user_id)` of the table.
abbrev pub IsTable : List Membership → Type 0
IsTable [] = Unit
IsTable (m ∷ ms) = (get m.workspace_id m.user_id ms ≡ none) × IsTable ms

abbrev pub tally : Uuid → MembershipRole → Option Membership → ℕ
tally w r none = 0
tally w r (some m) = if has_role w r m then 1 else 0

get-key :
    (w u : Uuid) (m : Membership) (ms : List Membership)
    → is_key w u m ≡ true
    → get m.workspace_id m.user_id ms ≡ none
    → get w u ms ≡ none
get-key w u m ms h e =
    let hw : m.workspace_id ≡ w = ground arith in
    let hu : m.user_id ≡ u = ground arith in rw (sym hw, sym hu) e

delete-absent : (w u : Uuid) (ms : List Membership) → get w u ms ≡ none → delete w u ms ≡ ms
unfolding delete get
delete-absent w u [] e = refl
delete-absent w u (m ∷ ms) e = elim (Bool-cases (is_key w u m)) [
  | inl key ↦ let found : some m ≡ none = sym (rw key refl) ∙ e in absurd (cc found)
  | inr other ↦ rw other (ap (λ t. m ∷ t) (delete-absent w u ms (sym (rw other refl) ∙ e)))
]

pub delete-count :
    (w u w' : Uuid) (r : MembershipRole) (ms : List Membership)
    → IsTable ms
    → count_by_role w' r (delete w u ms) + tally w' r (get w u ms) ≡ count_by_role w' r ms
unfolding delete get count_by_role
delete-count w u w' r [] h = refl
delete-count w u w' r (m ∷ ms) h = elim (Bool-cases (is_key w u m)) [
  | inl key ↦ let gone = delete-absent w u ms (get-key w u m ms key h.0) in ground (arith, gone)
  | inr other ↦ let rest = delete-count w u w' r ms h.1 in ground (arith, rest)
]

update_role-absent :
    (w u : Uuid) (r : MembershipRole) (now : Instant) (ms : List Membership)
    → get w u ms ≡ none
    → update_role w u r now ms ≡ ms
unfolding update_role get
update_role-absent w u r now [] e = refl
update_role-absent w u r now (m ∷ ms) e = elim (Bool-cases (is_key w u m)) [
  | inl key ↦ let found : some m ≡ none = sym (rw key refl) ∙ e in absurd (cc found)
  | inr other ↦
      rw other (ap (λ t. m ∷ t) (update_role-absent w u r now ms (sym (rw other refl) ∙ e)))
]

abbrev pub renamed : MembershipRole → Instant → Option Membership → Option Membership
renamed r now none = none
renamed r now (some m) = some (with_role r now m)

pub update_role-count :
    (w u w' : Uuid) (r r' : MembershipRole) (now : Instant) (ms : List Membership)
    → IsTable ms
    → count_by_role w' r' (update_role w u r now ms) + tally w' r' (get w u ms)
      ≡ count_by_role w' r' ms + tally w' r' (renamed r now (get w u ms))
unfolding update_role get count_by_role
update_role-count w u w' r r' now [] h = refl
update_role-count w u w' r r' now (m ∷ ms) h = elim (Bool-cases (is_key w u m)) [
  | inl key ↦
      let same = update_role-absent w u r now ms (get-key w u m ms key h.0) in ground (arith, same)
  | inr other ↦ let rest = update_role-count w u w' r r' now ms h.1 in ground (arith, rest)
]

get-update_role :
    (w u w' u' : Uuid) (r : MembershipRole) (now : Instant) (ms : List Membership)
    → get w' u' ms ≡ none
    → get w' u' (update_role w u r now ms) ≡ none
unfolding update_role get
get-update_role w u w' u' r now [] e = refl
get-update_role w u w' u' r now (m ∷ ms) e =
    let rest = get-update_role w u w' u' r now ms in ground (arith, rest)

get-delete :
    (w u w' u' : Uuid) (ms : List Membership)
    → get w' u' ms ≡ none
    → get w' u' (delete w u ms) ≡ none
unfolding delete get
get-delete w u w' u' [] e = refl
get-delete w u w' u' (m ∷ ms) e = let rest = get-delete w u w' u' ms in ground (arith, rest)

pub update_role-IsTable :
    (w u : Uuid) (r : MembershipRole) (now : Instant) (ms : List Membership)
    → IsTable ms
    → IsTable (update_role w u r now ms)
unfolding update_role
update_role-IsTable w u r now [] h = tt
update_role-IsTable w u r now (m ∷ ms) h =
    let rest = update_role-IsTable w u r now ms h.1 in
    let absent = get-update_role w u m.workspace_id m.user_id r now ms h.0 in
    elim (Bool-cases (is_key w u m)) [
      | inl key ↦ rw key (absent, rest)
      | inr other ↦ rw other (absent, rest)
    ]

pub delete-IsTable : (w u : Uuid) (ms : List Membership) → IsTable ms → IsTable (delete w u ms)
unfolding delete
delete-IsTable w u [] h = tt
delete-IsTable w u (m ∷ ms) h =
    let rest = delete-IsTable w u ms h.1 in
    elim (Bool-cases (is_key w u m)) [
      | inl key ↦ rw key rest
      | inr other ↦ rw other (get-delete w u m.workspace_id m.user_id ms h.0, rest)
    ]

-- The row that was found is still found, with its new role.
pub get-updated :
    (w u : Uuid) (r : MembershipRole) (now : Instant) (ms : List Membership)
    → get w u (update_role w u r now ms) ≡ renamed r now (get w u ms)
unfolding update_role get
get-updated w u r now [] = refl
get-updated w u r now (m ∷ ms) =
    let rest = get-updated w u r now ms in
    elim (Bool-cases (is_key w u m)) [ inl key ↦ ground arith | inr other ↦ ground (arith, rest) ]

-- The workspace of the row that was found.
pub get-found :
    (w u : Uuid) (ms : List Membership) (m : Membership) → get w u ms ≡ some m → m.workspace_id ≡ w
unfolding get
get-found w u [] m e = absurd (cc e)
get-found w u (n ∷ ms) m e = elim (Bool-cases (is_key w u n)) [
  | inl key ↦ let hd : some n ≡ some m = sym (rw key refl) ∙ e in ground arith
  | inr other ↦ get-found w u ms m (sym (rw other refl) ∙ e)
]
