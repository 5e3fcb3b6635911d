-- ===== src/Examples/Loops.antt =====
-- The doom-loop detector on concrete histories; the digest is the text itself.
use digital_employee.Common.{String, ◌≡◌, ◌↔◌, arith, List, [], ◌∷◌, take, replicate}
use digital_employee.Engine.DoomLoop.{
  DoomLoopDetector, default_doom_loop_config, observe, repetition,
}
use digital_employee.Engine.DoomLoop.Signals.{IsSound, observe-repetition_iff}

abbrev itself : String → String
itself s = s

abbrev detector : List String → DoomLoopDetector
detector history = record { config = default_doom_loop_config; history = history }

defaults-IsSound : IsSound default_doom_loop_config
defaults-IsSound = record {
  threshold = omega arith;
  cycle = omega arith;
  run_fits = omega arith;
  alternation_fits = omega arith;
}

observe-repetition_iff_example :
    ((observe itself (detector ("a" ∷ "a" ∷ [])) "a").1 ≡ repetition)
    ↔ (take {A = String} 3 ("a" ∷ "a" ∷ "a" ∷ []) ≡ replicate 3 "a")
observe-repetition_iff_example =
    observe-repetition_iff itself (detector ("a" ∷ "a" ∷ [])) "a" defaults-IsSound (omega arith)

abbrev narrow : DoomLoopDetector
narrow = record {
  config = record { repetition_threshold = 3; oscillation_cycles = 1; window_size = 2 };
  history = "a" ∷ "a" ∷ [];
}
