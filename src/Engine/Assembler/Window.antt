-- ===== src/Engine/Assembler/Window.antt =====
-- The assembled window keeps its bounds, and its counts account for every byte.
use digital_employee.Common.{
  ℕ, ◌+◌, ◌≤◌, ◌≡◌, refl, arith, Option, none, some, List, [], ◌∷◌, if_some, length, All, if_cases,
  if_some_cases, subst,
}
use digital_employee.Engine.Assembler.{
  Bytes, ContextSlot, ContextBlock, AssembleContextInput, ContextWindowLimits, candidate_text, cut,
  block_of, spend, is_void, assemble_blocks, assemble_context, context_slot_order,
}
use digital_employee.Engine.Assembler.Truncation.{truncate_to_byte_budget-length}

-- Within an optional bound.
abbrev pub FitsIn : Option ℕ → ℕ → Type 0
FitsIn none n = Unit
FitsIn (some bound) n = n ≤ bound

cut-length :
    (bound : Option ℕ) (text : Bytes)
    → FitsIn bound (length (cut bound text).0)
      × (length (cut bound text).0 + (cut bound text).1 ≡ length text)
unfolding cut if_some
cut-length none text = (tt, omega arith)
cut-length (some n) text = truncate_to_byte_budget-length text n

cut-le : (bound : Option ℕ) (text : Bytes) → length (cut bound text).0 ≤ length text
cut-le bound text = omega (arith, (cut-length bound text).1)

FitsIn-le : (bound : Option ℕ) (m n : ℕ) → FitsIn bound n → m ≤ n → FitsIn bound m
FitsIn-le none m n h l = tt
FitsIn-le (some b) m n h l = omega arith

-- A block of the source text: what is kept and what is cut add up to it, and the block fits the
-- bound on blocks.
abbrev pub IsAccounted : AssembleContextInput → ContextWindowLimits → ContextBlock → Type 0
IsAccounted input limits block =
    (text : Bytes) × (candidate_text input block.slot ≡ some text)
    × (block.byte_length + block.truncated_bytes ≡ length text)
    × (block.byte_length ≡ length block.text)
    × FitsIn limits.max_block_bytes block.byte_length

block_of-IsAccounted :
    (input : AssembleContextInput) (limits : ContextWindowLimits) (remaining : Option ℕ)
    (slot : ContextSlot) (text : Bytes)
    → candidate_text input slot ≡ some text
    → IsAccounted input limits (block_of limits remaining slot text)
unfolding block_of
block_of-IsAccounted input limits remaining slot text c =
    let kept = (cut limits.max_block_bytes text).0 in
    (
      text,
      c,
      omega (arith, (cut-length limits.max_block_bytes text).1, (cut-length remaining kept).1),
      refl,
      FitsIn-le limits.max_block_bytes _ _ (cut-length limits.max_block_bytes text).0
          (cut-le remaining kept),
    )

block_of-fits :
    (limits : ContextWindowLimits) (remaining : Option ℕ) (slot : ContextSlot) (text : Bytes)
    → FitsIn remaining (block_of limits remaining slot text).byte_length
unfolding block_of
block_of-fits limits remaining slot text =
    (cut-length remaining (cut limits.max_block_bytes text).0).0

abbrev pub total : List ContextBlock → ℕ
total [] = 0
total (block ∷ blocks) = block.byte_length + total blocks

FitsIn-spend :
    (remaining : Option ℕ) (block : ContextBlock) (n : ℕ)
    → FitsIn remaining block.byte_length
    → FitsIn (spend remaining block) n
    → FitsIn remaining (block.byte_length + n)
unfolding if_some
FitsIn-spend none block n h l = tt
FitsIn-spend (some r) block n h l = omega arith

module _ (input : AssembleContextInput) (limits : ContextWindowLimits) where
  assemble_blocks-total :
      (remaining : Option ℕ) (slots : List ContextSlot)
      → FitsIn remaining (total (assemble_blocks input limits remaining slots))
  unfolding assemble_blocks
  assemble_blocks-total none [] = tt
  assemble_blocks-total (some r) [] = omega arith
  assemble_blocks-total remaining (slot ∷ slots) =
      if_some_cases (λ (bs : List ContextBlock). FitsIn remaining (total bs))
        (candidate_text input slot) _ _
        (λ text c.
          let block = block_of limits remaining slot text in
          let h =
            FitsIn-spend remaining block _ (block_of-fits limits remaining slot text)
              (assemble_blocks-total (spend remaining block) slots) in
          if_cases (λ (bs : List ContextBlock). FitsIn remaining (total bs)) (is_void block)
            (assemble_blocks input limits (spend remaining block) slots)
            (block ∷ assemble_blocks input limits (spend remaining block) slots)
            (λ v. FitsIn-le remaining _ _ h (omega arith)) (λ v. h))
        (λ n. assemble_blocks-total remaining slots)

  assemble_blocks-IsAccounted :
      (remaining : Option ℕ) (slots : List ContextSlot)
      → All (IsAccounted input limits) (assemble_blocks input limits remaining slots)
  unfolding assemble_blocks
  assemble_blocks-IsAccounted remaining [] = tt
  assemble_blocks-IsAccounted remaining (slot ∷ slots) =
      if_some_cases (All (IsAccounted input limits)) (candidate_text input slot) _ _
        (λ text c.
          let block = block_of limits remaining slot text in
          let rest = assemble_blocks-IsAccounted (spend remaining block) slots in
          if_cases (All (IsAccounted input limits)) (is_void block)
            (assemble_blocks input limits (spend remaining block) slots)
            (block ∷ assemble_blocks input limits (spend remaining block) slots) (λ v. rest)
            (λ v. (block_of-IsAccounted input limits remaining slot text c, rest)))
        (λ n. assemble_blocks-IsAccounted remaining slots)

  -- The assembled blocks together fit the total bound; each fits the bound on blocks, its length is
  -- the length of its text, and what it keeps and what it reports as cut add up to the text of its
  -- slot.
  pub assemble_context-fits :
      (blocks : List ContextBlock)
      → assemble_context input limits ≡ some blocks
      → FitsIn limits.max_total_bytes (total blocks) × All (IsAccounted input limits) blocks
  unfolding assemble_context
  assemble_context-fits blocks =
      if_cases
        (λ (o : Option (List ContextBlock)).
          o ≡ some blocks
          → FitsIn limits.max_total_bytes (total blocks) × All (IsAccounted input limits) blocks)
        _ none (some (assemble_blocks input limits limits.max_total_bytes context_slot_order))
        (λ empty h. cc)
        (λ given h.
          subst
            (λ (bs : List ContextBlock).
              FitsIn limits.max_total_bytes (total bs) × All (IsAccounted input limits) bs)
            {x = assemble_blocks input limits limits.max_total_bytes context_slot_order}
            {y = blocks} (cc)
            (
              assemble_blocks-total limits.max_total_bytes context_slot_order,
              assemble_blocks-IsAccounted limits.max_total_bytes context_slot_order,
            ))
