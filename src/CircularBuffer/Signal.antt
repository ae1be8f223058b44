-- ===== src/CircularBuffer/Signal.antt =====
-- What UpdateSignalled leaves alone.
use motown.Base.{
  ℕ, ◌≡◌, refl, ◌∙◌, Bool, true, ◌&&◌, not, Bool-cases, inl, inr, Option, none, some, ltb,
}
use motown.CircularBuffer.{
  Adapter, update_signalled, next_signalled, set_watermarks, set_signal_callback,
}

-- The same adapter but for its signal, its water marks and its callback.
pub record SameRing (a b : Adapter) : Type 0 where
  pub bound_same : b.bound ≡ a.bound
  pub flush_same : b.flush_in_progress ≡ a.flush_in_progress
  pub state_same : b.internal_state ≡ a.internal_state
  pub handle_same : b.has_handle ≡ a.has_handle
  pub mapped_same : b.mapped ≡ a.mapped
  pub size_same : b.buffer_size ≡ a.buffer_size
  pub rd_same : b.rd ≡ a.rd
  pub wr_same : b.wr ≡ a.wr
  pub generation_same : b.flush_generation ≡ a.flush_generation
  pub seq_same : b.seq_num_gen ≡ a.seq_num_gen
  pub in_flight_same : b.in_flight ≡ a.in_flight

pub SameRing-signal :
    (a : Adapter) (s c m : Bool)
    → SameRing a (record a { signalled = s; cbk_scheduled = c; fault_cbk_made = m })
SameRing-signal a s c m = record {
  bound_same = refl;
  flush_same = refl;
  state_same = refl;
  handle_same = refl;
  mapped_same = refl;
  size_same = refl;
  rd_same = refl;
  wr_same = refl;
  generation_same = refl;
  seq_same = refl;
  in_flight_same = refl;
}

pub SameRing-client :
    (a : Adapter) (hi lo : ℕ) (cbk : Option ℕ)
    → SameRing a (record a { hi_water_mark = hi; lo_water_mark = lo; signal_cbk = cbk })
SameRing-client a hi lo cbk = record {
  bound_same = refl;
  flush_same = refl;
  state_same = refl;
  handle_same = refl;
  mapped_same = refl;
  size_same = refl;
  rd_same = refl;
  wr_same = refl;
  generation_same = refl;
  seq_same = refl;
  in_flight_same = refl;
}

pub SameRing-trans : (a b c : Adapter) → SameRing a b → SameRing b c → SameRing a c
SameRing-trans a b c s t = record {
  bound_same = t.bound_same ∙ s.bound_same;
  flush_same = t.flush_same ∙ s.flush_same;
  state_same = t.state_same ∙ s.state_same;
  handle_same = t.handle_same ∙ s.handle_same;
  mapped_same = t.mapped_same ∙ s.mapped_same;
  size_same = t.size_same ∙ s.size_same;
  rd_same = t.rd_same ∙ s.rd_same;
  wr_same = t.wr_same ∙ s.wr_same;
  generation_same = t.generation_same ∙ s.generation_same;
  seq_same = t.seq_same ∙ s.seq_same;
  in_flight_same = t.in_flight_same ∙ s.in_flight_same;
}

pub update_signalled-SameRing : (a : Adapter) → SameRing a (update_signalled a).0
unfolding update_signalled
update_signalled-SameRing a =
    elim (Bool-cases (next_signalled a && not a.cbk_scheduled && not a.fault_cbk_made)) [
      | inl e ↦ rw e (SameRing-signal a (next_signalled a) true a.fault_cbk_made)
      | inr ne ↦ rw ne (SameRing-signal a (next_signalled a) a.cbk_scheduled a.fault_cbk_made)
    ]

pub set_watermarks-SameRing : (hi lo : ℕ) (a : Adapter) → SameRing a (set_watermarks hi lo a).0
unfolding set_watermarks
set_watermarks-SameRing hi lo a = elim (Bool-cases (ltb hi lo)) [
  | inl e ↦ rw e (SameRing-client a a.hi_water_mark a.lo_water_mark a.signal_cbk)
  | inr ne ↦ rw ne (
      SameRing-trans a (record a { hi_water_mark = hi; lo_water_mark = lo })
        (update_signalled (record a { hi_water_mark = hi; lo_water_mark = lo })).0
        (SameRing-client a hi lo a.signal_cbk)
        (update_signalled-SameRing (record a { hi_water_mark = hi; lo_water_mark = lo })))
]

pub set_signal_callback-SameRing :
    (cbk : Option ℕ) (a : Adapter) → SameRing a (set_signal_callback cbk a).0
unfolding set_signal_callback
set_signal_callback-SameRing none a = SameRing-client a a.hi_water_mark a.lo_water_mark none
set_signal_callback-SameRing (some cbk) a =
    SameRing-trans a (record a { signal_cbk = some cbk })
      (update_signalled (record a { signal_cbk = some cbk })).0
      (SameRing-client a a.hi_water_mark a.lo_water_mark (some cbk))
      (update_signalled-SameRing (record a { signal_cbk = some cbk }))
