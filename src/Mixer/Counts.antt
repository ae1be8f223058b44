-- ===== src/Mixer/Counts.antt =====
-- How many frames a mixer has in its source.
use native.Mathlib.Nat.{div-eq_of_lt, div-eq-sub-div, div-add-mod', mod-lt}
use motown.Base.{
  ℕ, zero, suc, ◌+◌, ◌-◌, ◌*◌, ◌/◌, ◌≤◌, ◌<◌, ◌≡◌, ap, ◌∙◌, sym, arith, Bool-cases, inl, inr, leb,
  ltb,
}

-- The frames from an offset on, one for each step, that start in front of the end of the source.
abbrev pub frames_in : ℕ → ℕ → ℕ → ℕ
frames_in end offset step = (end - offset + step - 1) / step

pub frames_in_none : (end offset step : ℕ) → 0 < step → end ≤ offset → frames_in end offset step ≡ 0
frames_in_none end offset step h le = div-eq_of_lt (omega arith)

pub frames_in-suc :
    (end offset step : ℕ)
    → 0 < step
    → offset < end
    → frames_in end offset step ≡ frames_in end (offset + step) step + 1
frames_in-suc end offset step h lt =
    div-eq-sub-div h (omega arith)
    ∙ ap (λ t. t + 1)
        (elim (Bool-cases (leb (offset + step) end)) [
          | inl le ↦
              let same : end - offset + step - 1 - step ≡ end - (offset + step) + step - 1 =
                ground arith in
              ap (λ t. t / step) same
          | inr gt ↦
              let short : end - offset + step - 1 - step < step = ground arith in
              let none_left : end - (offset + step) + step - 1 < step = ground arith in
              div-eq_of_lt short ∙ sym (div-eq_of_lt none_left)
        ])

-- Where there is a frame, the offset is in the source.
frames_in-inside : (end offset step : ℕ) → 0 < step → 0 < frames_in end offset step → offset < end
frames_in-inside end offset step h lt = elim (Bool-cases (ltb offset end)) [
  | inl inside ↦ ground arith
  | inr outside ↦
      let none_there = frames_in_none end offset step h (ground arith) in absurd (omega arith)
]

-- Each of these frames starts in the source.
pub frames_in_below :
    (end offset step j : ℕ) → 0 < step → j < frames_in end offset step → offset + j * step < end
frames_in_below end offset step zero h lt =
    let inside = frames_in-inside end offset step h lt in grind arith
frames_in_below end offset step (suc j) h lt =
    let inside = frames_in-inside end offset step h (omega arith) in
    let next = frames_in-suc end offset step h inside in
    let rest = frames_in_below end (offset + step) step j h (omega arith) in grind arith

-- After all of them, the offset is at or behind the end of the source.
pub frames_in_reach :
    (end offset step : ℕ) → 0 < step → end ≤ offset + frames_in end offset step * step
frames_in_reach end offset step h =
    let whole = div-add-mod' (end - offset + step - 1) step in
    let rest = mod-lt (end - offset + step - 1) h in omega arith
