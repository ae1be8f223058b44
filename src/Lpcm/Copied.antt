-- ===== src/Lpcm/Copied.antt =====
-- The loops over the samples of a buffer.
use native.Mathlib.Nat.{mul-le-mul}
use motown.Base.{
  ◌⊎◌, ℕ, zero, suc, ◌+◌, ◌*◌, ◌≤◌, ◌<◌, ◌≡◌, ◌≢◌, refl, ap, ◌∙◌, inl, inr, arith, ltb, ne→==,
  Bool-cases,
}
use motown.Lpcm.{store, copy_samples, copy_channels}

regroup : (j m s : ℕ) → j + suc m * s ≡ j + s + m * s
regroup j m s = grind arith

at_start : (j s : ℕ) → j + 0 * s ≡ j
at_start j s = grind arith

pub store_self {ℓ} : {B : Type ℓ} (out : ℕ → B) (p : ℕ) (v : B) → store out p v p ≡ v
unfolding store
store_self out p v = ground arith

pub store_other {ℓ} :
    {B : Type ℓ} (out : ℕ → B) (p : ℕ) (v : B) (q : ℕ) → p ≢ q → store out p v q ≡ out q
unfolding store
store_other out p v q h = rw (ne→== p q h)

-- Positions of different channels, or of different rows, are different.
apart : (s c c' m m' : ℕ) → c < c' → c' < c + s → c' + m' * s ≢ c + m * s
apart s c c' m m' h k e = elim (le_total m m') [
  | inl le ↦
      let mono : m * s ≤ m' * s = mul-le-mul {n₂ = m'} {m₂ = s} le (omega arith) in
      absurd (omega arith)
  | inr lt ↦
      let mono : suc m' * s ≤ m * s = mul-le-mul {n₂ = m} {m₂ = s} lt (omega arith) in
      let more : suc m' * s ≡ s + m' * s = grind arith in absurd (omega arith)
]
  where
    le_total : (m m' : ℕ) → (m ≤ m') ⊎ (m' < m)
    le_total m m' = elim (Bool-cases (ltb m' m)) [
      | inl e ↦ inr (ground arith)
      | inr e ↦ inl (ground arith)
    ]

module _ {ℓ κ} {A : Type ℓ} {B : Type κ} (copy : A → B) (input : ℕ → A) where
  -- What the inner loop leaves alone.
  copy_samples_other :
      (count i in_step : ℕ) (out : ℕ → B) (j out_step q : ℕ)
      → ((m : ℕ) → m < count → j + m * out_step ≢ q)
      → copy_samples copy count input i in_step out j out_step q ≡ out q
  unfolding copy_samples
  copy_samples_other zero i in_step out j out_step q away = refl
  copy_samples_other (suc count) i in_step out j out_step q away =
      copy_samples_other count (i + in_step) in_step (store out j (copy (input i))) (j + out_step)
        out_step q (λ m h e. away (suc m) (omega arith) (regroup j m out_step ∙ e))
      ∙ store_other out j (copy (input i)) q (λ e. away 0 (omega arith) (at_start j out_step ∙ e))

  -- What it writes.
  copy_samples_written :
      (count i in_step : ℕ) (out : ℕ → B) (j out_step m : ℕ)
      → 0 < out_step
      → m < count
      → copy_samples copy count input i in_step out j out_step (j + m * out_step)
        ≡ copy (input (i + m * in_step))
  unfolding copy_samples
  copy_samples_written zero i in_step out j out_step m hs h = absurd (omega arith)
  copy_samples_written (suc count) i in_step out j out_step zero hs h =
      rw (at_start j out_step, at_start i in_step)
        (copy_samples_other count (i + in_step) in_step (store out j (copy (input i)))
            (j + out_step) out_step j (λ m k e. absurd (omega arith))
          ∙ store_self out j (copy (input i)))
  copy_samples_written (suc count) i in_step out j out_step (suc m) hs h =
      rw (regroup j m out_step, regroup i m in_step)
        (copy_samples_written count (i + in_step) in_step (store out j (copy (input i)))
          (j + out_step) out_step m hs (omega arith))

  pub copy_channels_other :
      (left frames i channel_step in_step : ℕ) (out : ℕ → B) (j out_step q : ℕ)
      → ((c m : ℕ) → c < left → m < frames → j + c + m * out_step ≢ q)
      → copy_channels copy left frames input i channel_step in_step out j out_step q ≡ out q
  unfolding copy_channels
  copy_channels_other zero frames i channel_step in_step out j out_step q away = refl
  copy_channels_other (suc left) frames i channel_step in_step out j out_step q away =
      copy_channels_other left frames (i + channel_step) channel_step in_step
        (copy_samples copy frames input i in_step out j out_step) (j + 1) out_step q
        (λ c m h k e. away (suc c) m (omega arith) k (ap (λ t. t + m * out_step) (omega arith) ∙ e))
      ∙ copy_samples_other frames i in_step out j out_step q
          (λ m k e. away 0 m (omega arith) k (ap (λ t. t + m * out_step) (omega arith) ∙ e))

  pub copy_channels_written :
      (left frames i channel_step in_step : ℕ) (out : ℕ → B) (j out_step c m : ℕ)
      → left ≤ out_step
      → c < left
      → m < frames
      → copy_channels copy left frames input i channel_step in_step out j out_step
          (j + c + m * out_step)
        ≡ copy (input (i + c * channel_step + m * in_step))
  unfolding copy_channels
  copy_channels_written zero frames i channel_step in_step out j out_step c m hs h k =
      absurd (omega arith)
  copy_channels_written (suc left) frames i channel_step in_step out j out_step zero m hs h k =
      let first : j + 0 ≡ j = omega arith in
      rw (first, at_start i channel_step)
        (copy_channels_other left frames (i + channel_step) channel_step in_step
            (copy_samples copy frames input i in_step out j out_step) (j + 1) out_step
            (j + m * out_step)
            (λ c' m' p q e. apart out_step j (j + 1 + c') m m' (omega arith) (omega arith) e)
          ∙ copy_samples_written frames i in_step out j out_step m (omega arith) k)
  copy_channels_written (suc left) frames i channel_step in_step out j out_step (suc c) m hs h k =
      let next : j + suc c ≡ j + 1 + c = omega arith in
      rw (next, regroup i c channel_step)
        (copy_channels_written left frames (i + channel_step) channel_step in_step
          (copy_samples copy frames input i in_step out j out_step) (j + 1) out_step c m
          (omega arith) (omega arith) k)
