-- ===== src/SparseBuffer/Tests.antt =====
-- Runs of the sparse buffer.
use motown.Base.{◌≡◌, refl, none, some, [], ◌∷◌, arith}
use motown.SparseBuffer.{
  SparseBuffer, initialize, fill, find_or_create_hole, create_from, split_found, split_at, fill_at,
  fill_holes, emplace, first_key,
}
use motown.SparseBuffer.History.{Reach, write, Represents, Reach-Represents}
use motown.SparseBuffer.Laws.{IsValid, initialize-IsValid, Fills, fill-Fills}

-- Ten bytes, of which those from 4 on are filled with three.
abbrev empty : SparseBuffer
empty = record { size = 10; holes = (0, 10) ∷ []; regions = [] }

empty-IsValid : IsValid empty
unfolding initialize
empty-IsValid = initialize-IsValid 10 (omega arith)

abbrev split : SparseBuffer
split = record { size = 10; holes = (0, 4) ∷ ((4, 6) ∷ []); regions = [] }

split-IsValid : IsValid split
split-IsValid = record {
  holes_ordered = (omega arith, omega arith, (omega arith, omega arith, omega arith));
  regions_ordered = omega arith;
  partition = λ x lt. ground arith;
}

abbrev filled : SparseBuffer
filled = record {
  size = 10;
  holes = (0, 4) ∷ ((7, 3) ∷ []);
  regions = (4, 1 ∷ (2 ∷ (3 ∷ []))) ∷ [];
}

filled-IsValid : IsValid filled
filled-IsValid = record {
  holes_ordered = (omega arith, omega arith, (omega arith, omega arith, omega arith));
  regions_ordered = (omega arith, omega arith, omega arith);
  partition = λ x lt. ground arith;
}

fill-Fills_example : Fills 4 (1 ∷ (2 ∷ (3 ∷ []))) split
fill-Fills_example =
    fill-Fills 4 6 (1 ∷ (2 ∷ (3 ∷ []))) split split-IsValid refl (omega arith) (omega arith)

creates_split : find_or_create_hole 4 none (initialize 10) ≡ some split
unfolding initialize find_or_create_hole create_from split_found split_at
creates_split = refl

fills_split : fill 4 (1 ∷ (2 ∷ (3 ∷ []))) split ≡ some (filled, some 7)
unfolding fill fill_at fill_holes emplace first_key
fills_split = refl

split-Reach : Reach 10 (λ x. none) split
unfolding initialize
split-Reach =
    Reach.creates 4 none (Reach.initialized (omega arith)) refl (λ h e. ground arith) creates_split

filled-Reach : Reach 10 (write 4 (1 ∷ (2 ∷ (3 ∷ []))) (λ x. none)) filled
filled-Reach =
    Reach.fills 4 6 (1 ∷ (2 ∷ (3 ∷ []))) split-Reach refl (omega arith) (omega arith) fills_split

Reach-Represents_example : Represents 10 (write 4 (1 ∷ (2 ∷ (3 ∷ []))) (λ x. none)) filled
Reach-Represents_example = Reach-Represents 10 filled-Reach
