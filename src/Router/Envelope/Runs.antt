-- ===== src/Router/Envelope/Runs.antt =====
-- Runs of one character in a text: a text with no run of three holds no boundary marker.
use aether_ai_workspace.Base.{
  ℕ, zero, suc, ◌+◌, ◌≤◌, ◌<◌, ◌≡◌, ◌≢◌, refl, Bool, true, false, ◌&&◌, [], ◌∷◌, ◌++◌, Text, leb,
  ◌==◌, if◌then◌else◌, replicate, arith, Contains, ==_refl, ap, ◌∙◌,
}
use native.Mathlib.Nat.{add-zero}

-- The length of the run of `c` that goes on at the character `x`, after one of `n`.
abbrev grow : ℕ → ℕ → ℕ → ℕ
grow c n x = if x == c then suc n else 0

-- Behind a run of `n` times `c`, the text makes no run of three.
unfoldable pub short_runs : ℕ → ℕ → Text → Bool
short_runs c n [] = true
short_runs c n (x ∷ text) = leb (grow c n x) 2 && short_runs c (grow c n x) text

-- How long the run of `c` is at the end of the text.
unfoldable pub trail : ℕ → ℕ → Text → ℕ
trail c n [] = n
trail c n (x ∷ text) = trail c (grow c n x) text

-- No three `c` stand in a row.
abbrev pub HasShortRuns : ℕ → Text → Type 0
HasShortRuns c text = short_runs c 0 text ≡ true

pub short_runs-append :
    (c n : ℕ) (s t : Text)
    → short_runs c n (s ++ t) ≡ (short_runs c n s && short_runs c (trail c n s) t)
unfolding short_runs trail
short_runs-append c n [] t = refl
short_runs-append c n (x ∷ s) t = ground (arith, short_runs-append c (grow c n x) s t)

-- A longer run in front only makes it harder.
pub short_runs-weaken :
    (c n m : ℕ) (t : Text) → m ≤ n → short_runs c n t ≡ true → short_runs c m t ≡ true
unfolding short_runs
short_runs-weaken c n m [] le h = refl
short_runs-weaken c n m (x ∷ t) le h =
    ground (arith, short_runs-weaken c (grow c n x) (grow c m x) t)

pub short_runs-other : (c n x : ℕ) (t : Text) → x ≢ c → short_runs c n (x ∷ t) ≡ short_runs c 0 t
unfolding short_runs
short_runs-other c n x t h = ground arith

triple_run : (c n : ℕ) (t : Text) → short_runs c n (c ∷ c ∷ c ∷ t) ≡ false
unfolding short_runs
triple_run c n t = ground arith

-- In such a text three `c` in a row stand nowhere.
pub short_runs-no_triple : (c : ℕ) (t : Text) → HasShortRuns c t → ¬ (Contains (replicate 3 c) t)
short_runs-no_triple c t h k =
    let l = c ∷ c ∷ c ∷ k.after in
    ground (
      arith,
      k.split,
      h,
      short_runs-append c 0 k.before l,
      triple_run c (trail c 0 k.before) k.after,
    )

-- A run of another character in front ends the run of `c`.
pub short_runs-replicate_other :
    (c d m n : ℕ) (t : Text) → d ≢ c → short_runs c m (replicate (suc n) d ++ t) ≡ short_runs c 0 t
short_runs-replicate_other c d m zero t h = short_runs-other c m d t h
short_runs-replicate_other c d m (suc n) t h =
    short_runs-other c m d (replicate (suc n) d ++ t) h ∙ short_runs-replicate_other c d 0 n t h

run_step : (c m : ℕ) (t : Text) → m < 2 → short_runs c m (c ∷ t) ≡ short_runs c (suc m) t
unfolding short_runs
run_step c m t h = ground (arith, ==_refl c)

-- A run of `c` itself in front counts.
pub short_runs-replicate_self :
    (c m n : ℕ) (t : Text)
    → m + n ≤ 2
    → short_runs c m (replicate n c ++ t) ≡ short_runs c (m + n) t
short_runs-replicate_self c m zero t h = rw (add-zero m)
short_runs-replicate_self c m (suc n) t h =
    run_step c m (replicate n c ++ t) (omega arith)
    ∙ short_runs-replicate_self c (suc m) n t (omega arith)
    ∙ ap (λ k. short_runs c k t) (omega arith)
