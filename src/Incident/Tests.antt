-- ===== src/Incident/Tests.antt =====
-- Runs of an incident.
use motown.Base.{[], ◌∷◌}
use motown.Incident.{Incident, new_incident, when, occur}
use motown.Incident.Order.{History, InOrder, History-InOrder}

abbrev finished : Incident
finished = (when 3 (occur (when 2 (when 1 new_incident).0).0).0).0

History-InOrder_example : InOrder (1 ∷ (2 ∷ (3 ∷ []))) (1 ∷ (2 ∷ (3 ∷ []))) finished
unfolding new_incident when occur
History-InOrder_example =
    History-InOrder
      (History.adds 3 (History.occurs (History.adds 2 (History.adds 1 History.created))))
