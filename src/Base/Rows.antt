-- ===== src/Base/Rows.antt =====
-- Tables as lists of rows: the first row that a condition holds for, and updates of all such rows.
use mathlib.Core.Path.{◌≡◌, refl, sym, ◌∙◌}
use mathlib.Core.Logic.{inl, inr}
use mathlib.Core.Bool.{Bool, true, false}
use mathlib.Core.Option.{Option, none, some}
use mathlib.Core.List.{List, [], ◌∷◌, ◌++◌}
use aether_ai_workspace.Base.Tests.{Bool-cases, if◌then◌else◌}
use aether_ai_workspace.Base.Lists.{All}

module _ {A : Type 0} where
  -- `SELECT ... WHERE`, of which the first row is read.
  unfoldable pub find_row : (A → Bool) → List A → Option A
  find_row p [] = none
  find_row p (a ∷ rows) = if p a then some a else find_row p rows

  -- `SELECT ... WHERE`
  unfoldable pub select_rows : (A → Bool) → List A → List A
  select_rows p [] = []
  select_rows p (a ∷ rows) = let rest = select_rows p rows in if p a then a ∷ rest else rest

  -- `UPDATE ... SET ... WHERE`
  unfoldable pub update_rows : (A → Bool) → (A → A) → List A → List A
  update_rows p set [] = []
  update_rows p set (a ∷ rows) =
      let rest = update_rows p set rows in if p a then set a ∷ rest else a ∷ rest

  -- `DELETE ... WHERE`
  unfoldable pub delete_rows : (A → Bool) → List A → List A
  delete_rows p [] = []
  delete_rows p (a ∷ rows) = let rest = delete_rows p rows in if p a then rest else a ∷ rest

  -- The row that is found satisfies the predicate.
  abbrev pub Finds : (A → Bool) → (A → Type 0) → List A → Type 0
  Finds p P rows = (a : A) × (find_row p rows ≡ some a) × P a

  pub find_row-holds :
      (p : A → Bool) (rows : List A) (a : A) → find_row p rows ≡ some a → p a ≡ true
  unfolding find_row
  find_row-holds p [] a e = absurd (cc e)
  find_row-holds p (x ∷ rows) a e = elim (Bool-cases (p x)) [
    | inl here ↦
        let found : some x ≡ some a = sym (rw here refl) ∙ e in
        let same : x ≡ a = cc in rw (sym same) here
    | inr other ↦
        let later : find_row p rows ≡ some a = sym (rw other refl) ∙ e in
        find_row-holds p rows a later
  ]

  pub find_row-All :
      (P : A → Type 0) (p : A → Bool) (rows : List A) (a : A)
      → find_row p rows ≡ some a
      → All P rows
      → P a
  unfolding find_row
  find_row-All P p [] a e h = absurd (cc e)
  find_row-All P p (x ∷ rows) a e h = elim (Bool-cases (p x)) [
    | inl here ↦
        let found : some x ≡ some a = sym (rw here refl) ∙ e in
        let same : x ≡ a = cc in rw (sym same) h.0
    | inr other ↦
        let later : find_row p rows ≡ some a = sym (rw other refl) ∙ e in
        find_row-All P p rows a later h.1
  ]

  -- Inserting behind does not change what is found.
  pub find_row-append :
      (p : A → Bool) (rows new : List A) (a : A)
      → find_row p rows ≡ some a
      → find_row p (rows ++ new) ≡ some a
  unfolding find_row
  find_row-append p [] new a e = absurd (cc e)
  find_row-append p (x ∷ rows) new a e = elim (Bool-cases (p x)) [
    | inl here ↦ let found : some x ≡ some a = sym (rw here refl) ∙ e in rw here found
    | inr other ↦
        let later : find_row p rows ≡ some a = sym (rw other refl) ∙ e in
        rw other (find_row-append p rows new a later)
  ]

  -- The first of its kind is found once it is inserted.
  pub find_row-new :
      (p : A → Bool) (rows : List A) (a : A)
      → find_row p rows ≡ none
      → p a ≡ true
      → find_row p (rows ++ (a ∷ [])) ≡ some a
  unfolding find_row
  find_row-new p [] a e h = rw h refl
  find_row-new p (x ∷ rows) a e h = elim (Bool-cases (p x)) [
    | inl here ↦ let clash : some x ≡ none = sym (rw here refl) ∙ e in absurd (cc clash)
    | inr other ↦
        let later : find_row p rows ≡ none = sym (rw other refl) ∙ e in
        rw other (find_row-new p rows a later h)
  ]

  -- An update that keeps the key and the predicate keeps what is found.
  pub update_rows-Finds :
      (P : A → Type 0) (p condition : A → Bool) (set : A → A) (rows : List A)
      → ((a : A) → p (set a) ≡ p a)
      → ((a : A) → P a → P (set a))
      → Finds p P rows
      → Finds p P (update_rows condition set rows)
  unfolding find_row update_rows
  update_rows-Finds P p condition set [] key keeps (a, e, h) = absurd (cc e)
  update_rows-Finds P p condition set (x ∷ rows) key keeps (a, e, h) = elim (Bool-cases (p x)) [
    | inl here ↦
        let found : some x ≡ some a = sym (rw here refl) ∙ e in
        let same : x ≡ a = cc in
        let own : P x = rw same h in
        elim (Bool-cases (condition x)) [
          | inl hit ↦
              let k : p (set x) ≡ true = key x ∙ here in rw (hit, k) (set x, refl, keeps x own)
          | inr miss ↦ rw (miss, here) (x, refl, own)
        ]
    | inr other ↦
        let later : find_row p rows ≡ some a = sym (rw other refl) ∙ e in
        let ih = update_rows-Finds P p condition set rows key keeps (a, later, h) in
        elim (Bool-cases (condition x)) [
          | inl hit ↦ let k : p (set x) ≡ false = key x ∙ other in rw (hit, k) ih
          | inr miss ↦ rw (miss, other) ih
        ]
  ]

  -- An update of the row that is found brings the predicate about.
  pub update_rows-hit :
      (P : A → Type 0) (p condition : A → Bool) (set : A → A) (rows : List A) (a : A)
      → ((a : A) → p (set a) ≡ p a)
      → find_row p rows ≡ some a
      → condition a ≡ true
      → P (set a)
      → Finds p P (update_rows condition set rows)
  unfolding find_row update_rows
  update_rows-hit P p condition set [] a key e c h = absurd (cc e)
  update_rows-hit P p condition set (x ∷ rows) a key e c h = elim (Bool-cases (p x)) [
    | inl here ↦
        let found : some x ≡ some a = sym (rw here refl) ∙ e in
        let same : x ≡ a = cc in
        let hit : condition x ≡ true = rw same c in
        let k : p (set x) ≡ true = key x ∙ here in
        let own : P (set x) = rw same h in rw (hit, k) (set x, refl, own)
    | inr other ↦
        let later : find_row p rows ≡ some a = sym (rw other refl) ∙ e in
        let ih = update_rows-hit P p condition set rows a key later c h in
        elim (Bool-cases (condition x)) [
          | inl hit ↦ let k : p (set x) ≡ false = key x ∙ other in rw (hit, k) ih
          | inr miss ↦ rw (miss, other) ih
        ]
  ]

  pub update_rows-All :
      (P : A → Type 0) (condition : A → Bool) (set : A → A) (rows : List A)
      → ((a : A) → condition a ≡ true → P a → P (set a))
      → All P rows
      → All P (update_rows condition set rows)
  unfolding update_rows
  update_rows-All P condition set [] keeps h = tt
  update_rows-All P condition set (x ∷ rows) keeps h =
      let rest = update_rows-All P condition set rows keeps h.1 in
      elim (Bool-cases (condition x)) [
        | inl hit ↦ rw hit (keeps x hit h.0, rest)
        | inr miss ↦ rw miss (h.0, rest)
      ]

  -- What an update that keeps the key makes of the row that is found.
  abbrev pub updated : (A → Bool) → (A → A) → Option A → Option A
  updated condition set none = none
  updated condition set (some a) = some (if condition a then set a else a)

  pub find_row-update_rows :
      (p condition : A → Bool) (set : A → A) (rows : List A)
      → ((a : A) → p (set a) ≡ p a)
      → find_row p (update_rows condition set rows) ≡ updated condition set (find_row p rows)
  unfolding find_row update_rows
  find_row-update_rows p condition set [] key = refl
  find_row-update_rows p condition set (x ∷ rows) key =
      let ih = find_row-update_rows p condition set rows key in
      elim (Bool-cases (condition x)) [
        | inl hit ↦ elim (Bool-cases (p x)) [
          | inl here ↦ let k : p (set x) ≡ true = key x ∙ here in rw (hit, k, here, hit) refl
          | inr other ↦ let k : p (set x) ≡ false = key x ∙ other in rw (hit, k, other) ih
        ]
        | inr miss ↦ elim (Bool-cases (p x)) [
          | inl here ↦ rw (miss, here, miss) refl
          | inr other ↦ rw (miss, other) ih
        ]
      ]

  pub delete_rows-All :
      (P : A → Type 0) (condition : A → Bool) (rows : List A)
      → All P rows
      → All P (delete_rows condition rows)
  unfolding delete_rows
  delete_rows-All P condition [] h = tt
  delete_rows-All P condition (x ∷ rows) h =
      let rest = delete_rows-All P condition rows h.1 in
      elim (Bool-cases (condition x)) [ inl hit ↦ rw hit rest | inr miss ↦ rw miss (h.0, rest) ]

  -- Where no row is found, the condition fails for every row.
  pub find_row-none :
      (p : A → Bool) (rows : List A) → find_row p rows ≡ none → All (λ a. p a ≡ false) rows
  unfolding find_row
  find_row-none p [] e = tt
  find_row-none p (x ∷ rows) e = elim (Bool-cases (p x)) [
    | inl here ↦ let clash : some x ≡ none = sym (rw here refl) ∙ e in absurd (cc clash)
    | inr other ↦
        let later : find_row p rows ≡ none = sym (rw other refl) ∙ e in
        (other, find_row-none p rows later)
  ]
