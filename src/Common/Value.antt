-- ===== src/Common/Value.antt =====
-- JavaScript values as `unknown` input carries them. Numbers are split into the non-negative safe
-- integers, which the program computes with, and all others (negative, fractional, not finite),
-- which it only rejects.
use Prim.Native.Nat.{ℕ}
use Prim.Native.String.{String}
use mathlib.Core.Bool.{Bool}
use digital_employee.Common.Tests.{if◌then◌else◌}
use text.Mathlib.Text.{◌==◌ as str_eq}

mutual
  pub data Fields : Type 0 where
    end : Fields
    field : String → Value → Fields → Fields

  pub data Value : Type 0 where
    undefined null other_num : Value
    bool : Bool → Value
    obj : Fields → Value
    num : ℕ → Value
    str : String → Value
    arr : Items → Value

  pub data Items : Type 0 where
    cons : Value → Items → Items
    nil : Items

-- `o[k]`
unfoldable pub member : String → Fields → Value
member k end = undefined
member k (field j v fs) = if str_eq j k then v else member k fs
