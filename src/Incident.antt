-- ===== src/Incident.antt =====
-- Incident of services/media/framework/util/incident.{h,cc}.
pub mod Order
mod Tests
use motown.Base.{ℕ, Bool, true, false, List, [], ◌∷◌, ◌++◌, if◌then◌else◌}

-- A consequence is a number: what it does is the client's, and it does not call the incident.
pub record Incident : Type 0 where
  pub occurred : Bool
  pub consequences : List ℕ

-- The constructor.
pub new_incident : Incident
new_incident = record { occurred = false; consequences = [] }

-- Each operation gives the next state and the consequences that it executes, in order.
pub when : ℕ → Incident → Incident × List ℕ
when consequence i =
    if i.occurred
    then (i, consequence ∷ [])
    else (record i { consequences = i.consequences ++ (consequence ∷ []) }, [])

-- Occur, which Run calls.
pub occur : Incident → Incident × List ℕ
occur i =
    if i.occurred then (i, []) else (record { occurred = true; consequences = [] }, i.consequences)

-- Reset; `reset` is the allocator's.
pub reset_incident : Incident → Incident × List ℕ
reset_incident i = (record { occurred = false; consequences = [] }, [])
