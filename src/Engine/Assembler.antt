-- ===== src/Engine/Assembler.antt =====
-- packages/engine/src/context-assembler.ts: the blocks of the context window. A text is its UTF-8
-- bytes, which is all that the assembler counts and cuts.
pub mod Truncation
pub mod Window
use digital_employee.Common.{
  ℕ, zero, suc, ◌+◌, ◌-◌, Bool, true, false, ◌&&◌, Option, none, some, List, [], ◌∷◌, ◌++◌, leb,
  ltb, ◌==◌, if◌then◌else◌, if_some, length, take,
}

abbrev pub Bytes : Type 0
Bytes = List ℕ

pub data ContextSlot : Type 0 where
  position_instructions position_spec turn_input memory_recall context_bundle : ContextSlot

abbrev pub context_slot_order : List ContextSlot
context_slot_order =
    position_instructions ∷ position_spec ∷ turn_input ∷ memory_recall ∷ context_bundle ∷ []

pub record ContextBlock : Type 0 where
  pub slot : ContextSlot
  pub text : Bytes
  pub byte_length : ℕ
  pub truncated_bytes : ℕ

pub record AssembleContextInput : Type 0 where
  pub instructions : Option Bytes
  pub spec : Option Bytes
  pub turn_input : Bytes
  pub memory_recall : Option (List Bytes)
  pub context_bundle : Option (List Bytes)

pub record ContextWindowLimits : Type 0 where
  pub max_block_bytes : Option ℕ
  pub max_total_bytes : Option ℕ

-- `buffer[i]`; out of range it is no continuation byte.
unfoldable pub byte_at : ℕ → Bytes → ℕ
byte_at i [] = 0
byte_at zero (b ∷ bs) = b
byte_at (suc i) (b ∷ bs) = byte_at i bs

-- `(b & 0xc0) === 0x80`
abbrev pub is_continuation : ℕ → Bool
is_continuation b = leb 128 b && ltb b 192

-- The walk back to a boundary of UTF-8 sequences.
unfoldable pub walk_back : ℕ → Bytes → ℕ
walk_back zero buffer = 0
walk_back (suc end) buffer =
    let earlier = walk_back end buffer in
    if is_continuation (byte_at (suc end) buffer) then earlier else suc end

-- truncateToByteBudget: what is kept, and how many bytes are cut.
unfoldable pub truncate_to_byte_budget : Bytes → ℕ → Bytes × ℕ
truncate_to_byte_budget text max_bytes =
    if leb (length text) max_bytes
    then (text, 0)
    else (take (walk_back max_bytes text) text, length text - walk_back max_bytes text)

-- `lines.join("\n")`
unfoldable pub join_lines : List Bytes → Bytes
join_lines [] = []
join_lines (line ∷ []) = line
join_lines (line ∷ next ∷ lines) = line ++ 10 ∷ join_lines (next ∷ lines)

-- `lines.length > 0 ? lines.join("\n") : undefined`
unfoldable pub joined : Option (List Bytes) → Option Bytes
joined none = none
joined (some []) = none
joined (some (line ∷ lines)) = some (join_lines (line ∷ lines))

-- The candidate of a slot.
unfoldable pub candidate_text : AssembleContextInput → ContextSlot → Option Bytes
candidate_text input position_instructions = input.instructions
candidate_text input position_spec = input.spec
candidate_text input turn_input = some input.turn_input
candidate_text input memory_recall = joined input.memory_recall
candidate_text input context_bundle = joined input.context_bundle

-- A cut by an optional bound.
unfoldable pub cut : Option ℕ → Bytes → Bytes × ℕ
cut bound text = if_some bound (truncate_to_byte_budget text) (text, 0)

-- The block of a text under both bounds.
unfoldable pub block_of : ContextWindowLimits → Option ℕ → ContextSlot → Bytes → ContextBlock
block_of limits remaining slot text =
    let (block_kept, block_cut) = cut limits.max_block_bytes text in
    let (kept, total_cut) = cut remaining block_kept in
    record {
      slot = slot;
      text = kept;
      byte_length = length kept;
      truncated_bytes = block_cut + total_cut;
    }

-- `text.length === 0 && truncatedBytes === 0`
abbrev pub is_void : ContextBlock → Bool
is_void block = block.byte_length == 0 && block.truncated_bytes == 0

abbrev pub spend : Option ℕ → ContextBlock → Option ℕ
spend remaining block = if_some remaining (λ bytes. some (bytes - block.byte_length)) none

-- The loop over the slots.
unfoldable pub assemble_blocks :
    AssembleContextInput → ContextWindowLimits → Option ℕ → List ContextSlot → List ContextBlock
assemble_blocks input limits remaining [] = []
assemble_blocks input limits remaining (slot ∷ slots) =
    if_some (candidate_text input slot)
      (λ text.
        let block = block_of limits remaining slot text in
        let rest = assemble_blocks input limits (spend remaining block) slots in
        if is_void block then rest else block ∷ rest)
      (assemble_blocks input limits remaining slots)

-- assembleContext: `none` is the TypeError for an empty turn input.
unfoldable pub assemble_context :
    AssembleContextInput → ContextWindowLimits → Option (List ContextBlock)
assemble_context input limits =
    if length input.turn_input == 0
    then none
    else some (assemble_blocks input limits limits.max_total_bytes context_slot_order)
