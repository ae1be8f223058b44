-- ===== src/ReaderCache/Tests.antt =====
-- Runs of the reader cache.
use motown.Base.{◌≡◌, refl, min, ◌-◌, false, none, some, [], ◌∷◌, arith}
use motown.Conversion.Enums.{Result}
use motown.ReaderCache.{start_request, Store, set_read_at_request}
use motown.ReaderCache.Answer.{IsIdle, Answered, set_read_at_request-Answered}
use motown.ReaderCache.Fault.{set_read_at_request_fails}

-- Ten bytes, after a request for the three from 4 on, the first one, was completed.
abbrev cached : Store
cached = record {
  size = 10;
  can_seek = false;
  result = Result.ok;
  buffer = record {
    size = 10;
    holes = (0, 4) ∷ ((7, 3) ∷ []);
    regions = (4, 1 ∷ (2 ∷ (3 ∷ []))) ∷ [];
  };
  intake_hole = some 7;
  read_hole = none;
  read_region = some 4;
  read_request = none;
  position = 7;
  remaining = 0;
}

cached-IsIdle : IsIdle cached
cached-IsIdle = record {
  valid = record {
    holes_ordered = (omega arith, omega arith, (omega arith, omega arith, omega arith));
    regions_ordered = (omega arith, omega arith, omega arith);
    partition = λ x lt. ground arith;
  };
  no_error = refl;
  no_request = refl;
  size_same = refl;
  hint = λ h e. let same : 7 ≡ h = cc in (3, ground arith);
}

set_read_at_request-Answered_example :
    Answered (min 4 (10 - 5)) 5 cached (set_read_at_request (start_request 5 4) cached)
set_read_at_request-Answered_example =
    set_read_at_request-Answered 5 4 cached cached-IsIdle (omega arith) (omega arith) (omega arith)
      (omega arith)

set_read_at_request_fails_example : set_read_at_request (start_request 1 2) cached ≡ none
set_read_at_request_fails_example =
    set_read_at_request_fails 1 2 4 (1 ∷ (2 ∷ (3 ∷ []))) [] cached cached-IsIdle (omega arith)
      (omega arith) refl (omega arith)
