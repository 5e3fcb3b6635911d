-- ===== src/Engine/DoomLoop/Signals.antt =====
-- Exactly when a signal is raised, in terms of the outputs seen.
use digital_employee.Common.{
  ℕ, zero, suc, ◌*◌, ◌≤◌, ◌<◌, String, ◌≡◌, ◌≢◌, ◌↔◌, refl, sym, subst, ◌∙◌, List, [], ◌∷◌, arith,
  length, take, replicate, eq_iff, eq_refl, take-take, length-take-le,
}
use digital_employee.Engine.DoomLoop.{
  DoomLoopDetector, DoomLoopConfig, repetition, oscillation, run_length, repetition_count, slots,
  cycles, signal, push, observe,
}
use digital_employee.Engine.DoomLoop.Window.{push-eq}

run_length_iff :
    (n : ℕ) (x : String) (xs : List String) → (n ≤ run_length x xs) ↔ (take n xs ≡ replicate n x)
unfolding run_length
run_length_iff zero x xs = (λ h. refl, λ e. omega arith)
run_length_iff (suc n) x [] = (λ h. absurd (omega arith), λ e. cc)
run_length_iff (suc n) x (y ∷ ys) = ground (arith, eq_iff y x, run_length_iff n x ys)

-- `n` entries that alternate `b`, `a`, `b`, …
abbrev pub alternation : ℕ → String → String → List String
alternation zero b a = []
alternation (suc n) b a = b ∷ alternation n a b

slots_iff :
    (n : ℕ) (b a : String) (xs : List String) → (n ≤ slots b a xs) ↔ (take n xs ≡ alternation n b a)
unfolding slots
slots_iff zero b a xs = (λ h. refl, λ e. omega arith)
slots_iff (suc n) b a [] = (λ h. absurd (omega arith), λ e. cc)
slots_iff (suc n) b a (y ∷ ys) = ground (arith, eq_iff y b, slots_iff n a b ys)

-- What the constructor checks, and a window that the thresholds fit in.
pub record IsSound (c : DoomLoopConfig) : Type 0 where
  pub threshold : 2 ≤ c.repetition_threshold
  pub cycle : 1 ≤ c.oscillation_cycles
  pub run_fits : c.repetition_threshold ≤ c.window_size
  pub alternation_fits : 4 * c.oscillation_cycles ≤ c.window_size

signal-repetition_iff :
    (c : DoomLoopConfig) (h : List String)
    → (signal c h ≡ repetition) ↔ (c.repetition_threshold ≤ repetition_count h)
unfolding signal
signal-repetition_iff c h = ground arith

signal-oscillation_iff :
    (c : DoomLoopConfig) (h : List String)
    → (signal c h ≡ oscillation)
      ↔ ((repetition_count h < c.repetition_threshold) × (c.oscillation_cycles ≤ cycles h))
unfolding signal
signal-oscillation_iff c h = ground arith

repetition_count-take :
    (w : ℕ) (x : String) (h : List String)
    → 1 ≤ w
    → repetition_count (take w (x ∷ h)) ≡ run_length x (take w (x ∷ h))
unfolding repetition_count
repetition_count-take zero x h p = absurd (omega arith)
repetition_count-take (suc w) x h p = refl

window-repetition_iff :
    (c : DoomLoopConfig) (x : String) (h : List String)
    → IsSound c
    → (signal c (take c.window_size (x ∷ h)) ≡ repetition)
      ↔ (take c.repetition_threshold (x ∷ h) ≡ replicate c.repetition_threshold x)
window-repetition_iff c x h s =
    let n = c.repetition_threshold in
    let l = take c.window_size (x ∷ h) in
    let counted = repetition_count-take c.window_size x h (omega arith) in
    let shorter = take-take n c.window_size (x ∷ h) s.run_fits in
    (
      λ e.
          sym shorter
          ∙ (run_length_iff n x l).0
              (subst (λ (k : ℕ). n ≤ k) counted ((signal-repetition_iff c l).0 e)),
      λ e.
          (signal-repetition_iff c l).1
            (subst (λ (k : ℕ). n ≤ k) (sym counted) ((run_length_iff n x l).1 (shorter ∙ e))),
    )

slots-le-length : (b a : String) (xs : List String) → slots b a xs ≤ length xs
unfolding slots
slots-le-length b a [] = omega arith
slots-le-length b a (x ∷ xs) = ground (arith, slots-le-length a b xs)

cycles_iff :
    (m : ℕ) (b a : String) (r : List String)
    → 1 ≤ m
    → (m ≤ cycles (b ∷ a ∷ r)) ↔ ((a ≢ b) × (4 * m ≤ slots b a (b ∷ a ∷ r)))
unfolding cycles
cycles_iff m b a r p = ground (arith, eq_iff a b, slots-le-length b a (b ∷ a ∷ r))

repetition_count_two : (b a : String) (r : List String) → a ≢ b → repetition_count (b ∷ a ∷ r) ≡ 1
unfolding repetition_count run_length
repetition_count_two b a r ne = ground (arith, eq_iff a b, eq_refl b)

oscillation_two_iff :
    (c : DoomLoopConfig) (b a : String) (r : List String)
    → IsSound c
    → (signal c (b ∷ a ∷ r) ≡ oscillation) ↔ (
        (a ≢ b)
        × (take (4 * c.oscillation_cycles) (b ∷ a ∷ r)
            ≡ alternation (4 * c.oscillation_cycles) b a))
oscillation_two_iff c b a r s =
    let n = c.oscillation_cycles in
    let l = b ∷ a ∷ r in
    (
      λ e.
          let (ne, long) = (cycles_iff n b a r s.cycle).0 ((signal-oscillation_iff c l).0 e).1 in
          (ne, (slots_iff (4 * n) b a l).0 long),
      λ (ne, e). (signal-oscillation_iff c l).1 (
        omega (arith, repetition_count_two b a r ne),
        (cycles_iff n b a r s.cycle).1 (ne, (slots_iff (4 * n) b a l).1 e),
      ),
    )

window-oscillation_iff :
    (c : DoomLoopConfig) (w : ℕ) (x a : String) (older : List String)
    → IsSound c
    → 4 * c.oscillation_cycles ≤ w
    → (signal c (take w (x ∷ a ∷ older)) ≡ oscillation) ↔ (
        (a ≢ x)
        × (take (4 * c.oscillation_cycles) (x ∷ a ∷ older)
            ≡ alternation (4 * c.oscillation_cycles) x a))
window-oscillation_iff c zero x a older s p = absurd (omega (arith, s.cycle))
window-oscillation_iff c (suc zero) x a older s p = absurd (omega (arith, s.cycle))
window-oscillation_iff c (suc (suc w)) x a older s p =
    rw (← take-take (4 * c.oscillation_cycles) (suc (suc w)) (x ∷ a ∷ older) p)
      (oscillation_two_iff c x a (take w older) s)

module _ (digest_output : String → String) where
  -- With thresholds that the constructor accepts and a window that they fit in, a repetition is
  -- signalled exactly when the newest `repetition_threshold` outputs, the one just observed
  -- included, all have its digest.
  pub observe-repetition_iff :
      (d : DoomLoopDetector) (text : String)
      → IsSound d.config
      → length d.history ≤ d.config.window_size
      → ((observe digest_output d text).1 ≡ repetition) ↔ (
          take d.config.repetition_threshold (digest_output text ∷ d.history)
          ≡ replicate d.config.repetition_threshold (digest_output text))
  unfolding observe
  observe-repetition_iff d text s fits =
      rw (push-eq d.config.window_size (digest_output text) d.history fits)
        (window-repetition_iff d.config (digest_output text) d.history s)

  -- With such a configuration, an oscillation is signalled exactly when the output just observed
  -- differs from the one before it and the newest four times `oscillation_cycles` digests alternate
  -- between these two.
  pub observe-oscillation_iff :
      (d : DoomLoopDetector) (text a : String) (older : List String)
      → IsSound d.config
      → d.history ≡ a ∷ older
      → length d.history ≤ d.config.window_size
      → ((observe digest_output d text).1 ≡ oscillation) ↔ (
          (a ≢ digest_output text)
          × (take (4 * d.config.oscillation_cycles) (digest_output text ∷ d.history)
              ≡ alternation (4 * d.config.oscillation_cycles) (digest_output text) a))
  unfolding observe
  observe-oscillation_iff d text a older s e fits =
      rw (push-eq d.config.window_size (digest_output text) d.history fits) (
        rw e (
          window-oscillation_iff d.config d.config.window_size (digest_output text) a older s
            s.alternation_fits))

run_length-le-length : (x : String) (xs : List String) → run_length x xs ≤ length xs
unfolding run_length
run_length-le-length x [] = omega arith
run_length-le-length x (y ∷ ys) = ground (arith, run_length-le-length x ys)

repetition_count-le-length : (h : List String) → repetition_count h ≤ length h
unfolding repetition_count
repetition_count-le-length [] = omega arith
repetition_count-le-length (x ∷ h) = run_length-le-length x (x ∷ h)

module _ (digest_output : String → String) where
  -- With a window smaller than the repetition threshold no repetition is ever signalled, however
  -- often the output repeats. The constructor accepts such a window.
  pub observe-small_window :
      (d : DoomLoopDetector) (text : String)
      → d.config.window_size < d.config.repetition_threshold
      → length d.history ≤ d.config.window_size
      → (observe digest_output d text).1 ≢ repetition
  unfolding observe
  observe-small_window d text small fits e =
      let h = push d.config.window_size (digest_output text) d.history in
      let size : length h ≤ d.config.window_size =
        rw (push-eq d.config.window_size (digest_output text) d.history fits)
          (length-take-le d.config.window_size (digest_output text ∷ d.history)) in
      omega (arith, repetition_count-le-length h, (signal-repetition_iff d.config h).0 e)
