-- ===== src/Examples/Contexts.antt =====
-- The context window on small entries and texts.
use digital_employee.Common.{
  ℕ, String, ◌≡◌, refl, Option, none, some, List, [], ◌∷◌, All, str_eq, if◌then◌else◌, if_some,
}
use digital_employee.Common.Dict.{Dict}
use digital_employee.Common.Membership.{Any}
use digital_employee.Engine.Freshness.{ContextEntry, filter_fresh_context, Ttl}
use digital_employee.Engine.Freshness.Partition.{IsFresh, filter_fresh_context-IsFresh}
use digital_employee.Engine.Assembler.{
  Bytes, truncate_to_byte_budget, byte_at, ContextBlock, AssembleContextInput, ContextWindowLimits,
  assemble_context, assemble_blocks, block_of, cut, candidate_text, joined, walk_back, turn_input,
  position_instructions,
}
use digital_employee.Engine.Assembler.Window.{assemble_context-fits, FitsIn, total, IsAccounted}

abbrev parse : String → Option ℕ
parse s = if str_eq s "1970-01-01T00:00:01Z" then some 1000 else none

abbrev stale : ContextEntry
stale = record {
  artifact_id = "a";
  source_digest = "d";
  event_at = "1970-01-01T00:00:01Z";
  ttl = some (Ttl.finite 500);
  expires_at = none;
  eviction_reason = none;
}

abbrev lasting : ContextEntry
lasting = record stale { artifact_id = "b"; ttl = none }

abbrev expected : Dict String
expected = ("b", "d") ∷ []

filter_fresh_context-IsFresh_example :
    All
      (λ entry. IsFresh parse 2000 expected entry × (entry.eviction_reason ≡ none))
      (filter_fresh_context parse (stale ∷ lasting ∷ []) 2000 expected).fresh
    × All
        (λ v.
          Any
            (λ entry. (entry.artifact_id ≡ v.id) × (IsFresh parse 2000 expected entry → ⊥))
            (stale ∷ lasting ∷ []))
        (filter_fresh_context parse (stale ∷ lasting ∷ []) 2000 expected).evicted
filter_fresh_context-IsFresh_example =
    filter_fresh_context-IsFresh parse 2000 expected (stale ∷ lasting ∷ [])

-- "aé", whose second letter is the bytes 195 and 169.
abbrev text : Bytes
text = 97 ∷ 195 ∷ 169 ∷ []

abbrev input : AssembleContextInput
input = record {
  instructions = some (97 ∷ 98 ∷ []);
  spec = none;
  turn_input = text;
  memory_recall = none;
  context_bundle = none;
}

abbrev limits : ContextWindowLimits
limits = record { max_block_bytes = none; max_total_bytes = some 4 }

abbrev blocks : List ContextBlock
blocks =
    record {
      slot = position_instructions;
      text = 97 ∷ 98 ∷ [];
      byte_length = 2;
      truncated_bytes = 0;
    }
    ∷ record { slot = turn_input; text = 97 ∷ []; byte_length = 1; truncated_bytes = 2 }
    ∷ []

assemble_context-fits_example :
    FitsIn (some 4) (total blocks) × All (IsAccounted input limits) blocks
unfolding assemble_context assemble_blocks block_of cut candidate_text joined walk_back byte_at
    truncate_to_byte_budget if_some
assemble_context-fits_example = assemble_context-fits input limits blocks refl
