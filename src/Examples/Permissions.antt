-- ===== src/Examples/Permissions.antt =====
-- The permission pre-check for one worker.
use digital_employee.Common.{String, ◌≡◌, ◌↔◌, refl, none, List, [], ◌∷◌, All, if_some}
use digital_employee.Common.Dict.{get}
use digital_employee.Common.Text.{
  join, concat, trim, trim_start, trim_end, split_on, starts_with, drop, includes_char,
}
use digital_employee.Org.Paths.{normalize_context_path, plain_segments, portable, has_drive}
use digital_employee.Org.Paths.Plain.{normalize_context_path-IsPlain, IsPlain}
use digital_employee.Org.Permissions.{
  OrganizationPermissions, allowed, position_unknown, context_decision, check_position, lookup,
}
use digital_employee.Org.Permissions.Scopes.{MayRead, MayCall, context_decision-allowed_iff}
use digital_employee.Org.PreCheck.{pre_check, unknown_denial}
use digital_employee.Org.PreCheck.Denied.{IsListed, pre_check-none_iff}
use digital_employee.Org.PreCheck.Record.{IsOneDenial, pre_check-IsOneDenial}

abbrev permissions : OrganizationPermissions
permissions = record {
  owner = "owner";
  positions =
      (
        "worker",
        record { mode = none; read = "./positions/worker/" ∷ []; tools_allow = "Read" ∷ [] },
      )
      ∷ [];
}

normalize_context_path-IsPlain_example :
    (segments : List String) × ("./a/b" ≡ concat ("./" ∷ join "/" segments ∷ []))
    × All IsPlain segments
unfolding normalize_context_path trim trim_start trim_end includes_char has_drive split_on
    starts_with drop plain_segments portable join concat if_some
normalize_context_path-IsPlain_example = normalize_context_path-IsPlain " ./a//b" "./a/b" refl

context_decision-allowed_iff_example :
    context_decision permissions "worker" "./positions/worker/notes" ≡ allowed
    ↔ MayRead permissions "worker" "./positions/worker/notes"
context_decision-allowed_iff_example =
    context_decision-allowed_iff permissions "worker" "./positions/worker/notes"

pre_check-none_iff_example :
    pre_check permissions "worker" ("./positions/worker/notes" ∷ []) ("Read" ∷ []) ≡ none ↔ (
      IsListed permissions "worker"
      × All (MayRead permissions "worker") ("./positions/worker/notes" ∷ [])
      × All (MayCall permissions "worker") ("Read" ∷ []))
pre_check-none_iff_example =
    pre_check-none_iff permissions "worker" ("./positions/worker/notes" ∷ []) ("Read" ∷ [])

pre_check-IsOneDenial_example :
    IsOneDenial permissions "nobody" position_unknown (unknown_denial permissions "nobody").denials
    × ((unknown_denial permissions "nobody").summary.deny_count ≡ 1)
unfolding pre_check check_position lookup get if_some
pre_check-IsOneDenial_example =
    pre_check-IsOneDenial permissions "nobody" [] [] (unknown_denial permissions "nobody") refl
