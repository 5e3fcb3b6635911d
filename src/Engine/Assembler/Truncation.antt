-- ===== src/Engine/Assembler/Truncation.antt =====
-- What truncateToByteBudget keeps.
use digital_employee.Common.{
  sym, ℕ, zero, suc, ◌+◌, ◌≤◌, ◌≡◌, ◌⊎◌, inl, inr, refl, arith, false, [], ◌∷◌, leb, length, take,
  Bool-cases, take_all,
}
use digital_employee.Engine.Assembler.{
  Bytes, walk_back, byte_at, is_continuation, truncate_to_byte_budget,
}

pub walk_back-le : (n : ℕ) (buffer : Bytes) → walk_back n buffer ≤ n
unfolding walk_back
walk_back-le zero buffer = omega arith
walk_back-le (suc n) buffer = ground (arith, walk_back-le n buffer)

walk_back-boundary :
    (n : ℕ) (buffer : Bytes)
    → (walk_back n buffer ≡ 0) ⊎ (is_continuation (byte_at (walk_back n buffer) buffer) ≡ false)
unfolding walk_back
walk_back-boundary zero buffer = inl refl
walk_back-boundary (suc n) buffer = elim (Bool-cases (is_continuation (byte_at (suc n) buffer))) [
  | inl c ↦ rw c (walk_back-boundary n buffer)
  | inr c ↦ rw c (inr c)
]

length-take : (n : ℕ) (bs : Bytes) → n ≤ length bs → length (take n bs) ≡ n
length-take zero bs h = omega arith
length-take (suc n) [] h = omega arith
length-take (suc n) (b ∷ bs) h = omega (arith, length-take n bs)

-- The kept bytes are within the budget, and with the cut ones they make up the text.
pub truncate_to_byte_budget-length :
    (text : Bytes) (max_bytes : ℕ)
    → (length (truncate_to_byte_budget text max_bytes).0 ≤ max_bytes)
      × (length (truncate_to_byte_budget text max_bytes).0
            + (truncate_to_byte_budget text max_bytes).1
          ≡ length text)
unfolding truncate_to_byte_budget
truncate_to_byte_budget-length text max_bytes =
    ground (arith, walk_back-le max_bytes text, length-take (walk_back max_bytes text) text)

-- What is kept is a prefix of the text, and where something is cut the cut is at its start or in
-- front of a byte that begins a UTF-8 sequence.
pub truncate_to_byte_budget-prefix :
    (text : Bytes) (max_bytes : ℕ)
    → (end : ℕ) × ((truncate_to_byte_budget text max_bytes).0 ≡ take end text)
      × ((end ≡ 0) ⊎ (length text ≤ end) ⊎ (is_continuation (byte_at end text) ≡ false))
unfolding truncate_to_byte_budget
truncate_to_byte_budget-prefix text max_bytes = elim (Bool-cases (leb (length text) max_bytes)) [
  | inl fits ↦
      rw fits
        (length text, sym (take_all (length text) text (omega arith)), inr (inl (omega arith)))
  | inr over ↦ rw over (
    walk_back max_bytes text,
    refl,
    elim (walk_back-boundary max_bytes text) [ inl z ↦ inl z | inr c ↦ inr (inr c) ],
  )
]
