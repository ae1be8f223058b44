-- ===== src/MediaPipe/Results.antt =====
-- The results of a packet.
use motown.Base.{◌≡◌, refl, List, [], ◌∷◌}
use motown.MediaPipe.{
  SendResult, consumed, flushed, PacketState, answered, exchange, set_result, destroy,
}

-- The state after some calls of SetResult, in the order of their exchanges.
pub set_results : List SendResult → PacketState → PacketState
set_results [] s = s
set_results (r ∷ rs) s = set_results rs (set_result r s)

-- Whether the media was flushed, by any of the results.
pub any_flushed : List SendResult → SendResult
any_flushed [] = consumed
any_flushed (flushed ∷ rs) = flushed
any_flushed (consumed ∷ rs) = any_flushed rs

set_results-flushed :
    (rs : List SendResult) (s : PacketState)
    → s.result ≡ flushed
    → (set_results rs s).result ≡ flushed
unfolding set_results set_result exchange
set_results-flushed [] s h = h
set_results-flushed (r ∷ rs) s h = set_results-flushed rs (set_result r s) (rw h)

set_results-result :
    (rs : List SendResult) (s : PacketState)
    → s.result ≡ consumed
    → (set_results rs s).result ≡ any_flushed rs
unfolding set_results set_result exchange any_flushed
set_results-result [] s h = h
set_results-result (consumed ∷ rs) s h = set_results-result rs (set_result consumed s) (rw h)
set_results-result (flushed ∷ rs) s h = set_results-flushed rs (set_result flushed s) (rw h)

set_results-callback :
    (rs : List SendResult) (s : PacketState) → (set_results rs s).callback ≡ s.callback
unfolding set_results set_result
set_results-callback [] s = refl
set_results-callback (r ∷ rs) s = set_results-callback rs (set_result r s)

-- For a packet whose result is still CONSUMED, in whatever order the calls of SetResult take
-- effect, the destructor answers with the packet's callback, and with FLUSHED exactly where one of
-- the results was FLUSHED.
pub destroy-set_results :
    (rs : List SendResult) (s : PacketState)
    → s.result ≡ consumed
    → destroy (set_results rs s) ≡ answered s.callback (any_flushed rs)
unfolding destroy
destroy-set_results rs s h = rw (set_results-callback rs s, set_results-result rs s h)
