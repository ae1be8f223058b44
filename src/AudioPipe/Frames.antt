-- ===== src/AudioPipe/Frames.antt =====
-- The frames of a packet.
use native.Mathlib.Nat.{
  div-add-mod, div-le_self, mod-one, mod-eq_of_lt, mul-div_cancel, mul-mod_left,
}
use motown.Base.{
  ℕ, ◌+◌, ◌*◌, ◌/◌, ◌%◌, ◌^◌, ◌≤◌, ◌<◌, ◌≡◌, refl, ap, sym, ◌∙◌, inl, inr, false, ◌&&◌, not, Option,
  none, some, List, [], ◌∷◌, arith, ltb, ◌==◌, Bool-cases, Option-cases, ==_iff, none-ne-some,
  some_injective,
}
use motown.MediaPipe.{PacketRegion}
use motown.MediaPipe.Packets.{AllFit}
use motown.AudioPipe.{
  AudioRegion, audio_region, frac_frame, max_frames, Counted, null_region, refused, counted,
  count_frames, with_region, count_regions,
}

divides : (fs v : ℕ) → 0 < fs → (ltb 1 fs && not (v % fs == 0)) ≡ false → v % fs ≡ 0
divides fs v h e = elim (Bool-cases (fs == 1)) [
  | inl one ↦ rw ((==_iff fs 1).0 one) (mod-one v)
  | inr more ↦ ground arith
]

regroup : (fs n q : ℕ) → (n + q) * fs ≡ n * fs + fs * q
regroup fs n q = grind arith

-- One round: the bytes that the count stands for, and its bound.
count_frames-some :
    (frame_size n : ℕ) (r : PacketRegion) (c : ℕ)
    → 0 < frame_size
    → n ≤ max_frames
    → r.length < 2 ^ 31
    → count_frames frame_size n r ≡ some c
    → (c * frame_size ≡ n * frame_size + r.length) × (c ≤ max_frames)
unfolding count_frames
count_frames-some frame_size n r c hf hn hr e =
    let small = div-le_self r.length frame_size in
    let whole = div-add-mod r.length frame_size in
    let whole_frames = regroup frame_size n (r.length / frame_size) in
    let sum : (n + r.length / frame_size) % 2 ^ 32 ≡ n + r.length / frame_size =
      mod-eq_of_lt (omega arith) in
    elim (Bool-cases (ltb 1 frame_size && not (r.length % frame_size == 0))) [
      | inl bad ↦ absurd (none-ne-some (rw (bad, count_frames) at e))
      | inr good ↦ elim (Bool-cases (ltb max_frames (n + r.length / frame_size))) [
        | inl over ↦ absurd (none-ne-some (rw (good, count_frames, sum, over) at e))
        | inr under ↦
            let zero = divides frame_size r.length hf good in
            let same : n + r.length / frame_size ≡ c =
              some_injective (rw (good, count_frames, sum, under) at e) in
            (ap (λ t. t * frame_size) (sym same) ∙ whole_frames ∙ omega arith, ground arith)
      ]
    ]

-- The bytes of the regions.
abbrev pub payload_bytes : List (Option PacketRegion) → ℕ
payload_bytes [] = 0
payload_bytes (none ∷ rest) = payload_bytes rest
payload_bytes (some r ∷ rest) = r.length + payload_bytes rest

-- Each region at its place, with a whole number of frames that the fixed point can hold.
abbrev pub Placed : List (Option PacketRegion) → List AudioRegion → Type 0
Placed [] [] = Unit
Placed [] (a ∷ as_) = ⊥
Placed (r ∷ rs) [] = ⊥
Placed (none ∷ rs) (a ∷ as_) = ⊥
Placed (some r ∷ rs) (a ∷ as_) =
    (a.base ≡ r.offset)
    × ((j : ℕ) × (a.frac_frame_len ≡ j * frac_frame) × (j ≤ max_frames))
    × Placed rs as_

-- The loop has used no null region, and where it has counted all of them, the count stands for all the
-- bytes.
abbrev pub Whole : ℕ → ℕ → List (Option PacketRegion) → Counted → Type 0
Whole frame_size n rs null_region = ⊥
Whole frame_size n rs refused = Unit
Whole frame_size n rs (counted regions total) =
    (total * frame_size ≡ n * frame_size + payload_bytes rs)
    × (total ≤ max_frames)
    × Placed rs regions

with_region-Whole :
    (frame_size n m : ℕ) (r : PacketRegion) (rs : List (Option PacketRegion)) (c : Counted)
    → (m * frame_size ≡ n * frame_size + r.length) × (m ≤ max_frames)
    → Whole frame_size m rs c
    → Whole frame_size n (some r ∷ rs) (with_region (audio_region r m) c)
unfolding with_region
with_region-Whole frame_size n m r rs null_region h w = absurd w
with_region-Whole frame_size n m r rs refused h w = tt
with_region-Whole frame_size n m r rs (counted regions total) h w =
    (omega (arith, h.0, w.0), w.1, (refl, (m, mod-eq_of_lt (omega (arith, h.1)), h.1), w.2))

pub count_regions-Whole :
    (frame_size n size : ℕ) (rs : List (Option PacketRegion))
    → 0 < frame_size
    → n ≤ max_frames
    → size < 2 ^ 31
    → AllFit size rs
    → Whole frame_size n rs (count_regions frame_size n rs)
unfolding count_regions
count_regions-Whole frame_size n size [] hf hn hs fit = (omega arith, hn, tt)
count_regions-Whole frame_size n size (none ∷ rs) hf hn hs fit = absurd fit.0
count_regions-Whole frame_size n size (some r ∷ rs) hf hn hs fit =
    elim (Option-cases (count_frames frame_size n r)) [
      | inl e ↦ rw (e, count_regions) tt
      | inr (m, e) ↦
          let h = count_frames-some frame_size n r m hf hn (omega (arith, fit.0)) e in
          rw (e, count_regions)
            (with_region-Whole frame_size n m r rs (count_regions frame_size m rs) h
              (count_regions-Whole frame_size m size rs hf h.1 hs fit.1))
    ]

-- A region of a whole number of frames: the count goes on modulo 2 ^ 32.
count_whole :
    (frame_size n k : ℕ) (r : PacketRegion)
    → 0 < frame_size
    → r.length ≡ k * frame_size
    → (n + k) % 2 ^ 32 ≤ max_frames
    → count_frames frame_size n r ≡ some ((n + k) % 2 ^ 32)
unfolding count_frames
count_whole frame_size n k r hf e h =
    let quotient : r.length / frame_size ≡ k = ap (λ t. t / frame_size) e ∙ mul-div_cancel k hf in
    let zero : r.length % frame_size ≡ 0 = ap (λ t. t % frame_size) e ∙ mul-mod_left k frame_size in
    rw (quotient, zero) (ground arith)

-- For a payload of j frames and an extra region of k frames, the payload not empty, no more than
-- kMaxFrames together, the loop of OnPacketReceived gives the extra region the length of both,
-- which is more than the frames that it has.
pub count_regions_running :
    (frame_size j k : ℕ) (r q : PacketRegion)
    → 0 < frame_size
    → 0 < j
    → j + k ≤ max_frames
    → r.length ≡ j * frame_size
    → q.length ≡ k * frame_size
    → (count_regions frame_size 0 (some r ∷ some q ∷ [])
        ≡ counted (audio_region r j ∷ audio_region q (j + k) ∷ []) (j + k))
      × (k * frac_frame < (audio_region q (j + k)).frac_frame_len)
unfolding count_regions with_region
count_regions_running frame_size j k r q hf hj hk er eq =
    let first : count_frames frame_size 0 r ≡ some j =
      count_whole frame_size 0 j r hf er (omega arith) ∙ ap (λ t. some t) (omega arith) in
    let second : count_frames frame_size j q ≡ some (j + k) =
      count_whole frame_size j k q hf eq (omega arith) ∙ ap (λ t. some t) (omega arith) in
    (rw (first, count_regions, second), omega arith)

-- A payload of 2 ^ 32 + j frames, with j at most kMaxFrames, passes for a packet of j frames.
pub count_regions_wraps :
    (frame_size j : ℕ) (r : PacketRegion)
    → 0 < frame_size
    → j ≤ max_frames
    → r.length ≡ (2 ^ 32 + j) * frame_size
    → count_regions frame_size 0 (some r ∷ []) ≡ counted (audio_region r j ∷ []) j
unfolding count_regions with_region
count_regions_wraps frame_size j r hf hj er =
    let one : count_frames frame_size 0 r ≡ some j =
      count_whole frame_size 0 (2 ^ 32 + j) r hf er (omega arith)
      ∙ ap (λ t. some t) (omega arith) in
    rw (one, count_regions)
