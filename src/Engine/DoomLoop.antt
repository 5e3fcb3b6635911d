-- ===== src/Engine/DoomLoop.antt =====
-- packages/engine/src/doom-loop.ts. The history is kept newest first: the head of the list is the
-- end of the source's array. The digest (SHA-256 of the runtime) is a parameter.
pub mod Window
pub mod Signals
use digital_employee.Common.{
  ℕ, zero, suc, ◌+◌, ◌/◌, String, Bool, true, false, Option, List, [], ◌∷◌, str_eq, ltb, leb,
  if◌then◌else◌, or_else, length,
}
use digital_employee.Common.Result.{Result, ok, err, ◌>>=◌, ◌>>◌, guard}

pub data DoomLoopSignal : Type 0 where
  no_signal repetition oscillation : DoomLoopSignal

pub record DoomLoopConfig : Type 0 where
  pub repetition_threshold : ℕ
  pub oscillation_cycles : ℕ
  pub window_size : ℕ

-- `Partial<DoomLoopConfig>`
pub record PartialConfig : Type 0 where
  pub repetition_threshold : Option ℕ
  pub oscillation_cycles : Option ℕ
  pub window_size : Option ℕ

abbrev pub default_doom_loop_config : DoomLoopConfig
default_doom_loop_config = record {
  repetition_threshold = 3;
  oscillation_cycles = 2;
  window_size = 16;
}

-- The constructor throws on a threshold below 2 or a cycle count below 1.
pub data ConfigError : Type 0 where
  repetition_threshold_invalid oscillation_cycles_invalid : ConfigError

pub record DoomLoopDetector : Type 0 where
  pub config : DoomLoopConfig
  pub history : List String

merged : PartialConfig → DoomLoopConfig
merged c = record {
  repetition_threshold =
      or_else c.repetition_threshold default_doom_loop_config.repetition_threshold;
  oscillation_cycles = or_else c.oscillation_cycles default_doom_loop_config.oscillation_cycles;
  window_size = or_else c.window_size default_doom_loop_config.window_size;
}

unfoldable pub create : PartialConfig → Result ConfigError DoomLoopDetector
unfolding merged
create partial = do
  let config = merged partial
  guard (leb 2 config.repetition_threshold) repetition_threshold_invalid
  guard (leb 1 config.oscillation_cycles) oscillation_cycles_invalid
  ok (record { config = config; history = [] })

-- How many entries at the front equal `last`.
unfoldable pub run_length : String → List String → ℕ
run_length last [] = 0
run_length last (x ∷ xs) = let rest = run_length last xs in if str_eq x last then suc rest else 0

unfoldable pub repetition_count : List String → ℕ
unfolding run_length
repetition_count [] = 0
repetition_count (last ∷ older) = run_length last (last ∷ older)

-- How many entries at the front alternate `b`, `a`, `b`, …
unfoldable pub slots : String → String → List String → ℕ
slots b a [] = 0
slots b a (x ∷ xs) = let rest = slots a b xs in if str_eq x b then suc rest else 0

unfoldable pub cycles : List String → ℕ
unfolding slots
cycles [] = 0
cycles (b ∷ []) = 0
cycles (b ∷ a ∷ older) =
    let history = b ∷ a ∷ older in
    if ltb (length history) 4 then 0 else if str_eq a b then 0 else slots b a history / 4

-- `#history.shift()`: the oldest entry goes.
unfoldable pub shift : List String → List String
shift [] = []
shift (x ∷ []) = []
shift (x ∷ y ∷ ys) = x ∷ shift (y ∷ ys)

-- `push`, then `shift` if the window is over its size
unfoldable pub push : ℕ → String → List String → List String
unfolding shift
push window_size digest history =
    let pushed = digest ∷ history in
    if ltb window_size (length pushed) then shift pushed else pushed

unfoldable pub signal : DoomLoopConfig → List String → DoomLoopSignal
unfolding repetition_count cycles
signal config history =
    if leb config.repetition_threshold (repetition_count history)
    then repetition
    else if leb config.oscillation_cycles (cycles history)
    then oscillation
    else no_signal

module _ (digest_output : String → String) where
  unfoldable pub observe : DoomLoopDetector → String → DoomLoopDetector × DoomLoopSignal
  unfolding push signal
  observe d text =
      let history = push d.config.window_size (digest_output text) d.history in
      (record d { history = history }, signal d.config history)

  -- The detector after a sequence of outputs, oldest first.
  unfoldable pub observe_all : DoomLoopDetector → List String → DoomLoopDetector
  unfolding observe
  observe_all d [] = d
  observe_all d (text ∷ texts) = observe_all (observe d text).0 texts

unfoldable pub reset : DoomLoopDetector → DoomLoopDetector
reset d = record d { history = [] }
