-- ===== src/WriteApproval/Requests.antt =====
-- packages/core/src/write-approval.ts: the shape of a preview request.
use digital_employee.Common.{
  String, Bool, true, false, Option, none, some, List, [], ◌∷◌, if◌then◌else◌, if_some,
}
use digital_employee.Common.Text.{is_empty}
use digital_employee.Common.Value.{Value, Items, member}

pub record WritePreviewRequest : Type 0 where
  pub task_id : String
  pub tool_name : String
  pub target : Value
  pub target_uri : String
  pub effect : Value
  pub effect_type : String
  pub declared_tools : Option (List String)

-- `typeof v === "string" && v.length > 0`
unfoldable pub nonempty_string : Value → Option String
nonempty_string (Value.str s) = if is_empty s then none else some s
nonempty_string _ = none

-- `o.k` of a non-null `object`; an array has none of the fields that are read here.
unfoldable pub field_of : String → Value → Option Value
field_of k (Value.obj fields) = some (member k fields)
field_of k (Value.arr items) = some Value.undefined
field_of k _ = none

unfoldable pub strings : Items → Option (List String)
strings Items.nil = some []
strings (Items.cons (Value.str s) items) = if_some (strings items) (λ rest. some (s ∷ rest)) none
strings (Items.cons _ items) = none

-- The optional list of declared tools.
unfoldable pub declared_tools_of : Value → Option (Option (List String))
declared_tools_of Value.undefined = some none
declared_tools_of (Value.arr items) = if_some (strings items) (λ tools. some (some tools)) none
declared_tools_of _ = none

abbrev is_string : Value → Bool
is_string (Value.str s) = true
is_string _ = false

-- validateWritePreviewRequest: `none` is the validation error.
unfoldable pub validate_write_preview_request : Value → Option WritePreviewRequest
validate_write_preview_request input =
    if_some (field_text "taskId" input)
      (λ task_id.
        if_some (field_text "toolName" input)
          (λ tool_name.
            if_some (field_of "target" input)
              (λ target.
                if_some (field_text "uri" target)
                  (λ target_uri.
                    if_some (field_of "effect" input)
                      (λ effect.
                        if_some (effect_type_of effect)
                          (λ effect_type.
                            if_some (tools_of input)
                              (λ declared_tools. some (record {
                                task_id = task_id;
                                tool_name = tool_name;
                                target = target;
                                target_uri = target_uri;
                                effect = effect;
                                effect_type = effect_type;
                                declared_tools = declared_tools;
                              }))
                              none)
                          none)
                      none)
                  none)
              none)
          none)
      none
  where
    field_text : String → Value → Option String
    field_text k v = if_some (field_of k v) nonempty_string none

    -- `effect.canonicalPayload` is any string.
    effect_type_of : Value → Option String
    effect_type_of effect =
        if_some (field_text "type" effect)
          (λ type_name.
            if_some (field_of "canonicalPayload" effect)
              (λ payload. if is_string payload then some type_name else none) none)
          none

    tools_of : Value → Option (Option (List String))
    tools_of input = if_some (field_of "declaredTools" input) declared_tools_of none
