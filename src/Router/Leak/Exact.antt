-- ===== src/Router/Leak/Exact.antt =====
-- When the check of the reply's last seventy characters finds a leak, and when it misses one.
use aether_ai_workspace.Base.{
  ◌⊎◌, inl, inr, drop-beyond, ℕ, suc, ◌≤◌, ◌<◌, ◌≡◌, true, ◌&&◌, [], ◌∷◌, ◌++◌, Text, leb, arith,
  Contains, ◌∙◌, ap, sym, take, drop, length, is_in, length-append, take-append-drop,
  is_in→Contains, Contains→is_in, take-length-append, or-cases, length-take_le, ◌+◌, ◌-◌,
  drop-append, append-eq-append, append_assoc, ◌↔◌, false, Bool-cases,
}
use mathlib.Core.Path.{subst}
use aether_ai_workspace.Router.Leak.{
  leak_threshold_chars, last, reply_leaks_system_prompt, any_span_in,
}

-- `text` holds `k` characters in a row of `prompt`.
pub record Leaks (k : ℕ) (prompt text : Text) : Type 0 where
  pub span : Text
  pub long : length span ≡ k
  pub of_prompt : Contains span prompt
  pub of_text : Contains span text

any_span_in→Leaks :
    (k : ℕ) (window prompt : Text) → any_span_in k window prompt ≡ true → Leaks k prompt window
unfolding any_span_in
any_span_in→Leaks k window [] h = absurd (ground arith)
any_span_in→Leaks k window (c ∷ prompt) h =
    elim (or-cases (leb k (length (c ∷ prompt)) && is_in (take k (c ∷ prompt)) window)
      (any_span_in k window prompt) h) [
        | inl here ↦ record {
          span = take k (c ∷ prompt);
          long = length-take_le k (c ∷ prompt) (ground arith);
          of_prompt = record {
            before = [];
            after = drop k (c ∷ prompt);
            split = sym (take-append-drop k (c ∷ prompt));
          };
          of_text = is_in→Contains _ window (ground arith);
        }
        | inr later ↦
            let l = any_span_in→Leaks k window prompt later in
            record {
              span = l.span;
              long = l.long;
              of_prompt = record {
                before = c ∷ l.of_prompt.before;
                after = l.of_prompt.after;
                split = ap (λ u. c ∷ u) l.of_prompt.split;
              };
              of_text = l.of_text;
            }
      ]

span_found :
    (k : ℕ) (window before span after : Text)
    → 0 < k
    → length span ≡ k
    → is_in span window ≡ true
    → any_span_in k window (before ++ (span ++ after)) ≡ true
unfolding any_span_in
span_found k window [] [] after pos e h = absurd (omega arith)
span_found k window [] (x ∷ span) after pos e h =
    let t : take k (x ∷ (span ++ after)) ≡ x ∷ span =
      ap (λ n. take n (x ∷ (span ++ after))) (sym e) ∙ take-length-append (x ∷ span) after in
    let fits : k ≤ suc (length (span ++ after)) = omega (arith, length-append span after) in
    ground (arith, t, h, fits)
span_found k window (b ∷ before) span after pos e h =
    ground (arith, span_found k window before span after pos e h)

pub Leaks→any_span_in :
    (k : ℕ) (window prompt : Text)
    → 0 < k
    → Leaks k prompt window
    → any_span_in k window prompt ≡ true
Leaks→any_span_in k window prompt pos l =
    rw l.of_prompt.split
      (span_found k window _ l.span _ pos l.long (Contains→is_in l.span window l.of_text))

-- What stands in the end of a text stands in the text.
Contains-last : (n : ℕ) (s t : Text) → Contains s (last n t) → Contains s t
Contains-last n s t c = record {
  before = take (length t - n) t ++ c.before;
  after = c.after;
  split =
      sym (take-append-drop (length t - n) t)
      ∙ ap (λ u. take (length t - n) t ++ u) c.split
      ∙ sym (append_assoc (take (length t - n) t) c.before (s ++ c.after));
}

below : (a b : ℕ) → ¬ (a ≤ b) → b < a
below a b h = omega arith

-- A part of `r ++ d` that ends inside of `r` is a part of `r`.
inside :
    {s r : Text} (d : Text) (c : Contains s (r ++ d))
    → length c.before + length s ≤ length r
    → Contains s r
inside {s} {r} d c h =
    let front = c.before ++ s in
    let e : front ++ c.after ≡ r ++ d = append_assoc c.before s c.after ∙ sym c.split in
    let fits : length front ≤ length r = omega (arith, length-append c.before s) in
    record {
      before = c.before;
      after = drop (length front) r;
      split =
          append-eq-append front c.after r d e fits
          ∙ append_assoc c.before s (drop (length front) r);
    }

-- A part that stands in `r ++ d`, but not in `r`, stands in its last characters if `d` is short.
Contains-in_last :
    (n : ℕ) (s r d : Text)
    → Contains s (r ++ d)
    → ¬ (Contains s r)
    → length s + length d ≤ n + 1
    → Contains s (last n (r ++ d))
Contains-in_last n s r d c fresh short =
    let k = length (r ++ d) - n in
    let l1 = length-append r d in
    let l2 = length-append c.before (s ++ c.after) in
    let l3 = length-append c.before s in
    let beyond : length r < length c.before + length s =
      below (length c.before + length s) (length r) (λ h. fresh (inside d c h)) in
    record {
      before = drop k c.before;
      after = c.after;
      split =
          ap (drop k) c.split ∙ drop-append k c.before (s ++ c.after) (omega (arith, l1, beyond));
    }

in_window :
    (reply prompt : Text)
    → reply_leaks_system_prompt reply prompt ≡ true
    → Leaks leak_threshold_chars prompt (last 70 reply)
unfolding reply_leaks_system_prompt
in_window reply prompt h =
    any_span_in→Leaks leak_threshold_chars (last 70 reply) prompt (ground arith)

pub Leaks-widen :
    {k : ℕ} {prompt s t : Text}
    → Leaks k prompt s
    → ((u : Text) → Contains u s → Contains u t)
    → Leaks k prompt t
Leaks-widen l f = record {
  span = l.span;
  long = l.long;
  of_prompt = l.of_prompt;
  of_text = f l.span l.of_text;
}

-- A positive answer is never wrong: the reply then holds fifty characters of the prompt in a row.
reply-Leaks_sound :
    (reply prompt : Text)
    → reply_leaks_system_prompt reply prompt ≡ true
    → Leaks leak_threshold_chars prompt reply
reply-Leaks_sound reply prompt h =
    Leaks-widen (in_window reply prompt h) (λ u. Contains-last 70 u reply)

pub Contains-append : (u s t : Text) → Contains u s → Contains u (s ++ t)
Contains-append u s t c = record {
  before = c.before;
  after = c.after ++ t;
  split =
      ap (λ v. v ++ t) c.split
      ∙ append_assoc c.before (u ++ c.after) t
      ∙ ap (λ v. c.before ++ v) (append_assoc u c.after t);
}

-- The window of a long tail does not reach in front of it.
last-append : (n : ℕ) (reply tail : Text) → n ≤ length tail → last n (reply ++ tail) ≡ last n tail
last-append n reply tail h =
    let e : length (reply ++ tail) - n ≡ length reply + (length tail - n) =
      omega (arith, length-append reply tail) in
    ap (λ k. drop k (reply ++ tail)) e ∙ drop-beyond reply tail (length tail - n)

pub long_text : {k : ℕ} {prompt text : Text} → Leaks k prompt text → k ≤ length text
long_text {k} {prompt} {text} l = omega (
  arith,
  l.long,
  ap length l.of_text.split,
  length-append l.of_text.before (l.span ++ l.of_text.after),
  length-append l.span l.of_text.after,
)

checked :
    (reply prompt : Text)
    → leak_threshold_chars ≤ length reply
    → any_span_in leak_threshold_chars (last 70 reply) prompt ≡ true
    → reply_leaks_system_prompt reply prompt ≡ true
unfolding reply_leaks_system_prompt
checked reply prompt long h = ground arith

-- With a reply so far that holds no leak and a delta of at most 21 characters, the check answers
-- exactly whether the longer reply holds fifty characters of the prompt in a row.
pub reply-Leaks_iff :
    (reply delta prompt : Text)
    → ¬ (Leaks leak_threshold_chars prompt reply)
    → length delta ≤ 21
    → (reply_leaks_system_prompt (reply ++ delta) prompt ≡ true)
      ↔ Leaks leak_threshold_chars prompt (reply ++ delta)
reply-Leaks_iff reply delta prompt clean short = (reply-Leaks_sound (reply ++ delta) prompt, found)
  where
    found :
        Leaks leak_threshold_chars prompt (reply ++ delta)
        → reply_leaks_system_prompt (reply ++ delta) prompt ≡ true
    found l =
        let c =
          Contains-in_last 70 l.span reply delta l.of_text
            (λ inner.
              clean
                (record { span = l.span; long = l.long; of_prompt = l.of_prompt; of_text = inner }))
            (omega (arith, l.long)) in
        checked (reply ++ delta) prompt (long_text l) (
          Leaks→any_span_in 50 (last 70 (reply ++ delta)) prompt (omega arith)
            (record { span = l.span; long = l.long; of_prompt = l.of_prompt; of_text = c }))

-- The check looks at the last seventy characters only: a leak that one delta completes and follows
-- with seventy characters or more, which hold none themselves, goes unseen, for every prompt.
pub reply-Leaks_missed :
    (reply tail prompt : Text)
    → Leaks leak_threshold_chars prompt reply
    → 70 ≤ length tail
    → ¬ (Leaks leak_threshold_chars prompt tail)
    → Leaks leak_threshold_chars prompt (reply ++ tail)
      × (reply_leaks_system_prompt (reply ++ tail) prompt ≡ false)
reply-Leaks_missed reply tail prompt l long clean = (
  Leaks-widen l (λ u. Contains-append u reply tail),
  unseen (Bool-cases (reply_leaks_system_prompt (reply ++ tail) prompt)),
)
  where
    -- The window is the same for the tail alone.
    same :
        reply_leaks_system_prompt (reply ++ tail) prompt ≡ true
        → Leaks leak_threshold_chars prompt tail
    same h =
        let l : Leaks leak_threshold_chars prompt (last 70 tail) =
          subst (λ w. Leaks leak_threshold_chars prompt w) (last-append 70 reply tail long)
            (in_window (reply ++ tail) prompt h) in
        Leaks-widen l (λ u. Contains-last 70 u tail)

    unseen :
        (reply_leaks_system_prompt (reply ++ tail) prompt ≡ true)
          ⊎ (reply_leaks_system_prompt (reply ++ tail) prompt ≡ false)
        → reply_leaks_system_prompt (reply ++ tail) prompt ≡ false
    unseen (inl h) = absurd (clean (same h))
    unseen (inr h) = h
