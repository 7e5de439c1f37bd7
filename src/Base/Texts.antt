-- ===== src/Base/Texts.antt =====
-- Texts as lists of code points, and when one stands in another.
use Prim.Native.Nat.{ℕ, compare, Ordering}
use Prim.Native.Char.{code}
use Prim.Native.String.{String}
use mathlib.Core.Path.{◌≡◌, refl, ap}
use mathlib.Core.Logic.{◌⊎◌, inl, inr}
use mathlib.Core.Bool.{Bool, true, false, ◌&&◌, ◌||◌}
use mathlib.Core.List.{List, [], ◌∷◌, ◌++◌}
use native.Mathlib.Omega.{arith}

-- Python's `str`, as its code points.
abbrev pub Text : Type 0
Text = List ℕ

abbrev pub codes : String → Text
codes String.[] = []
codes (String.◌∷◌ c s) = code c ∷ codes s

abbrev same_code : ℕ → ℕ → Bool
same_code a b = elim (compare a b) [ Ordering.eq ↦ true | _ ↦ false ]

-- `s == t`
unfoldable pub text_eq : Text → Text → Bool
text_eq [] [] = true
text_eq (a ∷ s) (b ∷ t) = same_code a b && text_eq s t
text_eq _ _ = false

pub text_eq→≡ : (s t : Text) → text_eq s t ≡ true → s ≡ t
unfolding text_eq
text_eq→≡ [] [] h = refl
text_eq→≡ [] (b ∷ t) h = ground arith
text_eq→≡ (a ∷ s) [] h = ground arith
text_eq→≡ (a ∷ s) (b ∷ t) h = ground (arith, text_eq→≡ s t)

pub text_eq_refl : (s : Text) → text_eq s s ≡ true
unfolding text_eq
text_eq_refl [] = refl
text_eq_refl (a ∷ s) = ground (arith, text_eq_refl s)

-- `t.startswith(s)`
unfoldable pub starts_with : Text → Text → Bool
starts_with [] t = true
starts_with (a ∷ s) [] = false
starts_with (a ∷ s) (b ∷ t) = same_code a b && starts_with s t

-- `s in t`
unfoldable pub is_in : Text → Text → Bool
unfolding starts_with
is_in s [] = starts_with s []
is_in s (b ∷ t) = starts_with s (b ∷ t) || is_in s t

-- `t` holds `s` as a contiguous part.
pub record Contains (s t : Text) : Type 0 where
  pub before : Text
  pub after : Text
  pub split : t ≡ before ++ (s ++ after)

pub starts_with-append : (s t : Text) → starts_with s (s ++ t) ≡ true
unfolding starts_with
starts_with-append [] t = refl
starts_with-append (a ∷ s) t = ground (arith, starts_with-append s t)

pub starts_with→split : (s t : Text) → starts_with s t ≡ true → (r : Text) × (t ≡ s ++ r)
unfolding starts_with
starts_with→split [] t h = (t, refl)
starts_with→split (a ∷ s) [] h = ground arith
starts_with→split (a ∷ s) (b ∷ t) h =
    let (r, e) = starts_with→split s t (ground arith) in (r, ground (arith, e))

pub is_in-append : (a s b : Text) → is_in s (a ++ (s ++ b)) ≡ true
unfolding is_in
is_in-append [] [] [] = refl
is_in-append [] [] (y ∷ b) = refl
is_in-append [] (x ∷ s) b = ground (arith, starts_with-append (x ∷ s) b)
is_in-append (x ∷ a) s b = ground (arith, is_in-append a s b)

pub or-cases : (a b : Bool) → (a || b) ≡ true → (a ≡ true) ⊎ (b ≡ true)
or-cases true b h = inl refl
or-cases false b h = inr h

pub is_in→Contains : (s t : Text) → is_in s t ≡ true → Contains s t
unfolding is_in
is_in→Contains s [] h =
    let (r, e) = starts_with→split s [] h in record { before = []; after = r; split = e }
is_in→Contains s (b ∷ t) h = elim (or-cases (starts_with s (b ∷ t)) (is_in s t) h) [
  | inl here ↦
      let (r, e) = starts_with→split s (b ∷ t) here in record { before = []; after = r; split = e }
  | inr later ↦
      let c = is_in→Contains s t later in
      record { before = b ∷ c.before; after = c.after; split = ap (λ u. b ∷ u) c.split }
]

pub Contains→is_in : (s t : Text) → Contains s t → is_in s t ≡ true
Contains→is_in s t c = rw c.split (is_in-append c.before s c.after)
