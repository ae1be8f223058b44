-- ===== src/MediaPipe/Tests.antt =====
-- The pipe at concrete inputs.
use motown.Base.{ℕ, ◌≡◌, refl, ◌⊎◌, Bool, true, false, Option, none, some, [], ◌∷◌}
use motown.Base.Int.{pos}
use motown.MediaPipe.{
  MediaPacket, MediaPipe, ran, packet_received, packet_state, new_pipe, init, reset_pipe,
  set_buffer, create_mapped, set_first_buffer, send_packet, send_in_buffer, check_region,
  check_regions, extra_regions, missing,
}
use motown.MediaPipe.Packets.{Accepts, send_packet_lem}
use motown.MediaPipe.Safety.{Reach, created, next, binds, sets, sends, IsValid, AllSafe, Reach-Safe}

abbrev packet_of : ℕ → ℕ → MediaPacket
packet_of offset length = record {
  pts = pos 0;
  end_of_stream = false;
  payload = some (record { offset = offset; length = length });
  extra_payload = some (some (record { offset = 0; length = 4 }) ∷ []);
}

abbrev open_pipe : MediaPipe
open_pipe = record { bound = true; buffer = some 16 }

abbrev info : ℕ → Option ℕ
info handle = some 16

abbrev maps : ℕ → ℕ → Bool
maps handle size = true

send_late : send_packet (packet_of 8 9) 7 open_pipe ≡ reset_pipe open_pipe
unfolding send_packet send_in_buffer check_regions check_region extra_regions
send_late = refl

second_missing :
    check_regions 16 0 (some (record { offset = 16; length = 0 })) (none ∷ []) ≡ some (missing 1)
unfolding check_regions check_region
second_missing = refl

send_packet_lem_example :
    (Accepts 16 (packet_of 8 8)
      × (send_packet (packet_of 8 8) 7 open_pipe
          ≡ (open_pipe, packet_received (packet_state (packet_of 8 8) 16 7) ∷ [])))
    ⊎ (¬ Accepts 16 (packet_of 8 8)
        × (send_packet (packet_of 8 8) 7 open_pipe ≡ reset_pipe open_pipe))
send_packet_lem_example = send_packet_lem (packet_of 8 8) 7 16 open_pipe refl

sent : Reach info maps open_pipe (ran 1 ∷ packet_received (packet_state (packet_of 8 8) 16 7) ∷ [])
unfolding new_pipe init set_buffer create_mapped set_first_buffer send_packet send_in_buffer
    check_regions check_region extra_regions
sent = next (next (next created binds) (sets 0 1 refl)) (sends (packet_of 8 8) 7 refl)

Reach-Safe_example :
    IsValid open_pipe × AllSafe (ran 1 ∷ packet_received (packet_state (packet_of 8 8) 16 7) ∷ [])
Reach-Safe_example = Reach-Safe info maps sent
