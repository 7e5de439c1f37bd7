-- ===== src/Router/Envelope/Faithful.antt =====
-- Neutralizing changes no more than it has to.
use aether_ai_workspace.Base.{
  ℕ, zero, suc, ◌≤◌, ◌≡◌, refl, inl, inr, true, [], ◌∷◌, ◌++◌, Text, leb, ◌==◌, if◌then◌else◌,
  replicate, arith, Bool-cases, append-nil, ◌∙◌, ap, sym, ◌⊎◌,
}
use aether_ai_workspace.Router.Envelope.{
  less, greater, is_angle, lookalike, flush, neutralize_from, neutralize_delimiter_lookalikes,
}
use aether_ai_workspace.Router.Envelope.Runs.{short_runs, HasShortRuns}
use mathlib.Core.Path.{ap₂, subst}
use aether_ai_workspace.Router.Envelope.Safe.{
  neutralize-HasShortRuns, neutralize_from-same, neutralize_from-turn, neutralize_from-plain,
}

-- What may become of one character: nothing, or the lookalike of an angle bracket.
abbrev pub IsKept : ℕ → ℕ → Type 0
IsKept c d = (d ≡ c) ⊎ (is_angle c ≡ true) × (d ≡ lookalike c)

-- Texts of one length whose characters at each place are so related, old and new.
abbrev pub IsNeutralized : Text → Text → Type 0
IsNeutralized [] [] = Unit
IsNeutralized (c ∷ old) (d ∷ new) = IsKept c d × IsNeutralized old new
IsNeutralized _ _ = ⊥

IsNeutralized-append :
    (s s' t t' : Text) → IsNeutralized s s' → IsNeutralized t t' → IsNeutralized (s ++ t) (s' ++ t')
IsNeutralized-append [] [] t t' h k = k
IsNeutralized-append [] (d ∷ s') t t' h k = absurd h
IsNeutralized-append (c ∷ s) [] t t' h k = absurd h
IsNeutralized-append (c ∷ s) (d ∷ s') t t' h k = (h.0, IsNeutralized-append s s' t t' h.1 k)

replicate-IsNeutralized : (n c d : ℕ) → IsKept c d → IsNeutralized (replicate n c) (replicate n d)
replicate-IsNeutralized zero c d h = tt
replicate-IsNeutralized (suc n) c d h = (h, replicate-IsNeutralized n c d h)

flush-IsNeutralized : (d n : ℕ) → is_angle d ≡ true → IsNeutralized (replicate n d) (flush d n)
unfolding flush
flush-IsNeutralized d n a = replicate-IsNeutralized n d _ (elim (Bool-cases (leb 3 n)) [
  | inl long ↦ rw long (inr (a, refl))
  | inr short ↦ rw short (inl refl)
])

-- A run moves over one of its own characters.
replicate_snoc : (n d : ℕ) (t : Text) → replicate (suc n) d ++ t ≡ replicate n d ++ (d ∷ t)
replicate_snoc zero d t = refl
replicate_snoc (suc n) d t = ap (λ u. d ∷ u) (replicate_snoc n d t)

neutralize_from-IsNeutralized :
    (text : Text) (d n : ℕ)
    → is_angle d ≡ true
    → IsNeutralized (replicate n d ++ text) (neutralize_from d n text)
neutralize_from-IsNeutralized [] d n a =
    unfold neutralize_from in
    subst (λ t. IsNeutralized t (flush d n)) (sym (append-nil _)) (flush-IsNeutralized d n a)
neutralize_from-IsNeutralized (x ∷ text) d n a = elim (Bool-cases (is_angle x)) [
  | inl is_run ↦ elim (Bool-cases (x == d)) [
    | inl same ↦
        let e : x ≡ d = ground arith in
        rw (neutralize_from-same d n x text is_run same) (
          subst (λ t. IsNeutralized t (neutralize_from d (suc n) text))
            (replicate_snoc n d text ∙ ap (λ c. replicate n d ++ (c ∷ text)) (sym e))
            (neutralize_from-IsNeutralized text d (suc n) a))
    | inr other ↦ rw (neutralize_from-turn d n x text is_run other) (
        IsNeutralized-append (replicate n d) (flush d n) (x ∷ text) (neutralize_from x 1 text)
          (flush-IsNeutralized d n a) (neutralize_from-IsNeutralized text x 1 is_run))
  ]
  | inr plain ↦ rw (neutralize_from-plain d n x text plain) (
      IsNeutralized-append (replicate n d) (flush d n) (x ∷ text) (x ∷ neutralize_from less 0 text)
        (flush-IsNeutralized d n a) (inl refl, neutralize_from-IsNeutralized text less 0 refl))
]

-- The pending run as a run of `c`.
abbrev pending : ℕ → ℕ → ℕ → ℕ
pending c d n = if d == c then n else 0

flush-short : (d n : ℕ) → n ≤ 2 → flush d n ≡ replicate n d
unfolding flush
flush-short d n le = ap (λ c. replicate n c) (ground arith)

-- The runs behind the pending ones stay short too.
short_runs-step :
    (c d n x : ℕ) (text : Text) (d' n' : ℕ)
    → pending c d' n' ≡ (if x == c then suc (pending c d n) else 0)
    → short_runs c (pending c d n) (x ∷ text) ≡ true
    → (pending c d' n' ≤ 2) × (short_runs c (pending c d' n') text ≡ true)
unfolding short_runs
short_runs-step c d n x text d' n' e h = rw e (ground arith)

neutralize_from-clean :
    (text : Text) (d n : ℕ)
    → is_angle d ≡ true
    → n ≤ 2
    → short_runs less (pending less d n) text ≡ true
    → short_runs greater (pending greater d n) text ≡ true
    → neutralize_from d n text ≡ replicate n d ++ text
neutralize_from-clean [] d n a le hl hg =
    unfold neutralize_from in flush-short d n le ∙ sym (append-nil _)
neutralize_from-clean (x ∷ text) d n a le hl hg = elim (Bool-cases (is_angle x)) [
  | inl is_run ↦ elim (Bool-cases (x == d)) [
    | inl same ↦
        let (bl, l) = short_runs-step less d n x text d (suc n) (ground arith) hl in
        let (bg, g) = short_runs-step greater d n x text d (suc n) (ground arith) hg in
        let e : x ≡ d = ground arith in
        rw (neutralize_from-same d n x text is_run same) (
          neutralize_from-clean text d (suc n) a (ground arith) l g
          ∙ replicate_snoc n d text
          ∙ ap (λ c. replicate n d ++ (c ∷ text)) (sym e))
    | inr other ↦
        let (bl, l) = short_runs-step less d n x text x 1 (ground arith) hl in
        let (bg, g) = short_runs-step greater d n x text x 1 (ground arith) hg in
        rw (neutralize_from-turn d n x text is_run other) (
          ap₂ (λ u v. u ++ v) (flush-short d n le)
            (neutralize_from-clean text x 1 is_run (omega arith) l g))
  ]
  | inr plain ↦
      let (bl, l) = short_runs-step less d n x text less 0 (ground arith) hl in
      let (bg, g) = short_runs-step greater d n x text less 0 (ground arith) hg in
      rw (neutralize_from-plain d n x text plain) (
        ap₂ (λ u v. u ++ (x ∷ v)) (flush-short d n le)
          (neutralize_from-clean text less 0 refl (omega arith) l g))
]

-- A text with no three equal angle brackets in a row is left as it is.
pub neutralize-clean :
    (text : Text)
    → HasShortRuns less text
    → HasShortRuns greater text
    → neutralize_delimiter_lookalikes text ≡ text
unfolding neutralize_delimiter_lookalikes
neutralize-clean text hl hg = neutralize_from-clean text less 0 refl (omega arith) hl hg

-- Neutralizing replaces some angle brackets by their lookalikes and changes no other character: old
-- and new text have one length, and at each place the new character is the old one, or the old one is
-- an angle bracket and the new one its lookalike. The new text has no three equal angle brackets in a
-- row, and neutralizing it once more changes nothing.
pub neutralize_exact :
    (text : Text)
    → IsNeutralized text (neutralize_delimiter_lookalikes text)
      × HasShortRuns less (neutralize_delimiter_lookalikes text)
      × HasShortRuns greater (neutralize_delimiter_lookalikes text)
      × (neutralize_delimiter_lookalikes (neutralize_delimiter_lookalikes text)
          ≡ neutralize_delimiter_lookalikes text)
unfolding neutralize_delimiter_lookalikes
neutralize_exact text = (
  neutralize_from-IsNeutralized text less 0 refl,
  neutralize-HasShortRuns less refl text,
  neutralize-HasShortRuns greater refl text,
  neutralize-clean _ (neutralize-HasShortRuns less refl text)
      (neutralize-HasShortRuns greater refl text),
)
