-- ===== src/Engine/DoomLoop/Window.antt =====
-- The window holds the newest digests.
use digital_employee.Common.{
  ℕ, zero, suc, ◌≤◌, String, ◌≡◌, refl, ap, sym, Bool-cases, inl, inr, take-take, take_all,
  length-take-le, ◌∙◌, List, [], ◌∷◌, arith, ltb, length, take,
}
use digital_employee.Engine.DoomLoop.{DoomLoopDetector, shift, push, observe, observe_all}

length-shift : (x : String) (xs : List String) → shift (x ∷ xs) ≡ take (length xs) (x ∷ xs)
unfolding shift
length-shift x [] = refl
length-shift x (y ∷ ys) = ap (◌∷◌ x) (length-shift y ys)

pub push-eq : (w : ℕ) (d : String) (h : List String) → length h ≤ w → push w d h ≡ take w (d ∷ h)
unfolding push
push-eq w d h fits = elim (Bool-cases (ltb w (suc (length h)))) [
  | inl full ↦
      let same : length h ≡ w = ground arith in
      rw full (length-shift d h ∙ ap (λ (k : ℕ). take k (d ∷ h)) same)
  | inr room ↦ rw room (sym (take_all w (d ∷ h) (ground arith)))
]

take-cons-take : (w : ℕ) (d : String) (ds : List String) → take w (d ∷ take w ds) ≡ take w (d ∷ ds)
take-cons-take zero d ds = refl
take-cons-take (suc w) d ds = ap (◌∷◌ d) (take-take w (suc w) ds (omega arith))

pub push-take : (w : ℕ) (d : String) (ds : List String) → push w d (take w ds) ≡ take w (d ∷ ds)
push-take w d ds = push-eq w d (take w ds) (length-take-le w ds) ∙ take-cons-take w d ds

module _ (digest_output : String → String) where
  -- All the digests seen, newest first.
  abbrev pub digests : List String → List String → List String
  digests seen [] = seen
  digests seen (text ∷ texts) = digests (digest_output text ∷ seen) texts

  window-observe_all :
      (d : DoomLoopDetector) (seen texts : List String)
      → d.history ≡ take d.config.window_size seen
      → (observe_all digest_output d texts).history ≡ take d.config.window_size (digests seen texts)
  unfolding observe_all observe
  window-observe_all d seen [] e = e
  window-observe_all d seen (text ∷ texts) e =
      window-observe_all (observe digest_output d text).0 (digest_output text ∷ seen) texts (
        ap (push d.config.window_size (digest_output text)) e
        ∙ push-take d.config.window_size (digest_output text) seen)

  config-observe_all :
      (d : DoomLoopDetector) (texts : List String)
      → (observe_all digest_output d texts).config ≡ d.config
  unfolding observe_all observe
  config-observe_all d [] = refl
  config-observe_all d (text ∷ texts) = config-observe_all (observe digest_output d text).0 texts

  -- After any outputs from an empty history, the history is exactly the newest `window_size` digests:
  -- it never grows past the window, drops the oldest first and keeps the order.
  pub observe_all-window :
      (d : DoomLoopDetector) (texts : List String)
      → d.history ≡ []
      → (observe_all digest_output d texts).history ≡ take d.config.window_size (digests [] texts)
  observe_all-window d texts e =
      window-observe_all d [] texts (e ∙ sym (take-nil d.config.window_size))
    where
      take-nil : (w : ℕ) → take {A = String} w [] ≡ []
      take-nil zero = refl
      take-nil (suc w) = refl
