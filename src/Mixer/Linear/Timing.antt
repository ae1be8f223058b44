-- ===== src/Mixer/Linear/Timing.antt =====
-- How far a call of LinearSampler::Mix goes.
use mathlib.Core.Option.{bind}
use motown.Base.{
  ◌⊎◌, ℕ, Option, zero, suc, ◌+◌, ◌-◌, ◌*◌, ◌^◌, ◌≤◌, ◌<◌, ◌≡◌, refl, ap, subst, ◌∙◌, inl, inr,
  arith, ltb, lt→ltb, Bool-cases, some, true,
}
use motown.Base.Int.{ℤ, pos, pos_part, neg_part, ltb_ℤ, ◌+ℤ◌, ◌≤ℤ◌}
use motown.Mixer.{mix_channels}
use motown.Mixer.Linear.{LinearState, advance_frame, linear_rounds}

infix 50 ◌<ℤ◌
abbrev pub ◌<ℤ◌ : ℤ → ℤ → Type 0
a <ℤ b = pos_part a + neg_part b < pos_part b + neg_part a

-- The frames that follow one another from an offset and a position on, where the samples of a
-- position are known.
unfoldable pub mixed_frames : ℕ → (ℤ → ℤ → ℤ) → (ℤ → ℕ → ℤ) → ℕ → ℕ → ℕ → ℤ → (ℕ → ℤ) → ℕ → ℤ
mixed_frames channels mix sample step zero d z out = out
mixed_frames channels mix sample step (suc n) d z out =
    mixed_frames channels mix sample step n (d + 1) (z +ℤ pos step)
      (mix_channels (sample z) mix channels 0 (d * channels) out)

-- Frames in front of a limit were passed, for which the destination has room, and mixed.
pub record Went (channels : ℕ) (mix : ℤ → ℤ → ℤ) (sample : ℤ → ℕ → ℤ) (dst_frames step limit : ℕ)
    (m k : LinearState) : Type 0 where
  pub frames : ℕ
  pub dst_went : k.dst_offset ≡ m.dst_offset + frames
  pub src_went : k.src_offset ≡ m.src_offset +ℤ pos (frames * step)
  pub room : m.dst_offset + frames ≤ dst_frames
  pub available : (j : ℕ) → j < frames → m.src_offset +ℤ pos (j * step) <ℤ pos limit
  pub mixed : k.dst ≡ mixed_frames channels mix sample step frames m.dst_offset m.src_offset m.dst

shift_sum : (z : ℤ) (a b : ℕ) → z +ℤ pos a +ℤ pos b ≡ z +ℤ pos (a + b)
unfolding ◌+ℤ◌
shift_sum z a b = ground arith

shift_none : (z : ℤ) (s : ℕ) → z ≡ z +ℤ pos (0 * s)
unfolding ◌+ℤ◌
shift_none z s = ground arith

further :
    (z w : ℤ) (a b step : ℕ)
    → w ≡ z +ℤ pos (a * step)
    → w +ℤ pos (b * step) ≡ z +ℤ pos ((a + b) * step)
further z w a b step e =
    let sum : a * step + b * step ≡ (a + b) * step = grind arith in
    ap (λ t. t +ℤ pos (b * step)) e ∙ shift_sum z (a * step) (b * step) ∙ ap (λ t. z +ℤ pos t) sum

below_top :
    (z : ℤ) (limit step : ℕ)
    → z <ℤ pos limit
    → limit + step ≤ 2 ^ 31
    → ltb_ℤ (z +ℤ pos step) (pos (2 ^ 31)) ≡ true
unfolding ◌+ℤ◌
below_top z limit step inside fits = ground arith

mixed_frames_further :
    (channels : ℕ) (mix : ℤ → ℤ → ℤ) (sample : ℤ → ℕ → ℤ) (step a b d : ℕ) (z : ℤ) (out : ℕ → ℤ)
    → mixed_frames channels mix sample step b
        (d + a)
        (z +ℤ pos (a * step))
        (mixed_frames channels mix sample step a d z out)
      ≡ mixed_frames channels mix sample step (a + b) d z out
unfolding mixed_frames
mixed_frames_further channels mix sample step zero b d z out =
    let none_more : d + 0 ≡ d = omega arith in
    let others : 0 + b ≡ b = omega arith in rw (none_more, others, ← shift_none z step) refl
mixed_frames_further channels mix sample step (suc a) b d z out =
    let next : d + suc a ≡ d + 1 + a = omega arith in
    let others : suc a + b ≡ suc (a + b) = omega arith in
    let on : step + a * step ≡ suc a * step = grind arith in
    rw (next, others, ← on, ← shift_sum z step (a * step))
      (mixed_frames_further channels mix sample step a b (d + 1) (z +ℤ pos step)
        (mix_channels (sample z) mix channels 0 (d * channels) out))

module _ (channels : ℕ) (mix : ℤ → ℤ → ℤ) (sample : ℤ → ℕ → ℤ) (dst_frames step limit : ℕ) where
  pub Went-nowhere :
      (m : LinearState)
      → m.dst_offset ≤ dst_frames
      → Went channels mix sample dst_frames step limit m m
  unfolding mixed_frames
  Went-nowhere m h = record {
    frames = 0;
    dst_went = omega arith;
    src_went = shift_none m.src_offset step;
    room = omega arith;
    available = λ j k. absurd (omega arith);
    mixed = refl;
  }

  pub Went-on :
      (m n k : LinearState)
      → Went channels mix sample dst_frames step limit m n
      → Went channels mix sample dst_frames step limit n k
      → Went channels mix sample dst_frames step limit m k
  Went-on m n k a b =
      let first = a.dst_went in
      let later = b.dst_went in
      let fits = b.room in
      record {
        frames = a.frames + b.frames;
        dst_went = omega arith;
        src_went = b.src_went ∙ further m.src_offset n.src_offset a.frames b.frames step a.src_went;
        room = omega arith;
        available = λ j h. elim (Bool-cases (ltb j a.frames)) [
          | inl before ↦ a.available j (ground arith)
          | inr behind ↦
              let at_j : a.frames + (j - a.frames) ≡ j = ground arith in
              subst (λ z. z <ℤ pos limit)
                (further m.src_offset n.src_offset a.frames (j - a.frames) step a.src_went
                  ∙ ap (λ t. m.src_offset +ℤ pos (t * step)) at_j)
                (b.available (j - a.frames) (ground arith))
        ];
        mixed =
            (let rest = mixed_frames channels mix sample step b.frames in
              b.mixed
              ∙ ap (λ d. rest d n.src_offset n.dst) a.dst_went
              ∙ ap (λ z. rest (m.dst_offset + a.frames) z n.dst) a.src_went
              ∙ ap
                  (λ out.
                    rest (m.dst_offset + a.frames) (m.src_offset +ℤ pos (a.frames * step)) out)
                  a.mixed
              ∙ mixed_frames_further channels mix sample step a.frames b.frames m.dst_offset
                  m.src_offset m.dst);
      }

  pub Went-one :
      (m : LinearState)
      → m.dst_offset < dst_frames
      → m.src_offset <ℤ pos limit
      → Went channels mix sample dst_frames step limit m (record m {
        dst_offset = m.dst_offset + 1;
        src_offset = m.src_offset +ℤ pos step;
        dst = mix_channels (sample m.src_offset) mix channels 0 (m.dst_offset * channels) m.dst;
      })
  unfolding mixed_frames
  Went-one m room inside = record {
    frames = 1;
    dst_went = refl;
    src_went = (let one : step ≡ 1 * step = grind arith in ap (λ t. m.src_offset +ℤ pos t) one);
    room = omega arith;
    available = λ j h.
        let zero_j : 0 ≡ j = omega arith in
        subst (λ t. m.src_offset +ℤ pos (t * step) <ℤ pos limit) zero_j
          (subst (λ z. z <ℤ pos limit) (shift_none m.src_offset step) inside);
    mixed = refl;
  }

  pub advance_frame-some :
      (dst : ℕ → ℤ) (m : LinearState)
      → m.src_offset <ℤ pos limit
      → limit + step ≤ 2 ^ 31
      → advance_frame step dst m
        ≡ some (record m {
          dst_offset = m.dst_offset + 1;
          src_offset = m.src_offset +ℤ pos step;
          dst = dst;
        })
  unfolding advance_frame
  advance_frame-some dst m inside fits = rw (below_top m.src_offset limit step inside fits) refl

  -- A loop whose frames are those of the samples, where it is entered.
  pub rounds-Went :
      (frame : LinearState → ℕ → ℤ) (Enters : ℤ → Type 0)
      (keeps : (z : ℤ) → Enters z → Enters (z +ℤ pos step)) (f : ℕ → ℤ)
      (frames : (m : LinearState)
        → m.filter_data ≡ f
        → Enters m.src_offset
        → m.src_offset <ℤ pos limit
        → frame m
          ≡ mix_channels (sample m.src_offset) mix channels 0 (m.dst_offset * channels) m.dst)
      (left : ℕ) (m : LinearState)
      → m.filter_data ≡ f
      → (m.dst_offset ≡ dst_frames) ⊎ Enters m.src_offset
      → left ≡ dst_frames - m.dst_offset
      → m.dst_offset ≤ dst_frames
      → limit + step ≤ 2 ^ 31
      → (k : LinearState) × (linear_rounds frame dst_frames (pos limit) step left m ≡ some k)
        × Went channels mix sample dst_frames step limit m k
        × ((k.dst_offset ≡ dst_frames) ⊎ (pos limit ≤ℤ k.src_offset))
  unfolding linear_rounds bind
  rounds-Went frame Enters keeps f frames zero m g enter e le fits =
      (m, refl, Went-nowhere m le, inl (omega arith))
  rounds-Went frame Enters keeps f frames (suc left) m g enter e le fits =
      elim (Bool-cases (ltb_ℤ m.src_offset (pos limit))) [
        | inl inside ↦
            let before : m.src_offset <ℤ pos limit = ground arith in
            let room = lt→ltb m.dst_offset dst_frames (omega arith) in
            let next : LinearState = record m {
              dst_offset = m.dst_offset + 1;
              src_offset = m.src_offset +ℤ pos step;
              dst =
                  mix_channels (sample m.src_offset) mix channels 0 (m.dst_offset * channels) m.dst;
            } in
            let entered : Enters m.src_offset = elim enter [
              | inl full ↦ absurd (omega arith)
              | inr h ↦ h
            ] in
            let same = frames m g entered before in
            let rest =
              rounds-Went frame Enters keeps f frames left next g (inr (keeps m.src_offset entered))
                (omega arith) (omega arith) fits in
            (
              rest.0,
              rw (room, inside, same, advance_frame-some next.dst m before fits) rest.1,
              Went-on m next rest.0 (Went-one m (omega arith) before) rest.2,
              rest.3,
            )
        | inr outside ↦
            let room = lt→ltb m.dst_offset dst_frames (omega arith) in
            (m, rw (room, outside) refl, Went-nowhere m le, inr (ground arith))
      ]

-- A part of a call comes to an end, after it passed what it has to.
abbrev pub Passes :
    ℕ → (ℤ → ℤ → ℤ) → (ℤ → ℕ → ℤ) → ℕ → ℕ → ℕ → LinearState → Option LinearState → Type 0
Passes channels mix sample dst_frames step limit m out =
    (k : LinearState) × (out ≡ some k)
    × Went channels mix sample dst_frames step limit m k
    × ((k.dst_offset ≡ dst_frames) ⊎ (pos limit ≤ℤ k.src_offset))
