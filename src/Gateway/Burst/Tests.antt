-- ===== src/Gateway/Burst/Tests.antt =====
-- Three calls of one key.
use hivepoint_backend.Common.{none, List, [], ◌∷◌}
use hivepoint_backend.Gateway.Burst.Rate.{Call}

abbrev calls : List Call
calls =
    record { now = 1000; request_count = 2; faults = λ k. none }
    ∷ record { now = 2000; request_count = 1; faults = λ k. none }
    ∷ record { now = 7000; request_count = 1; faults = λ k. none }
    ∷ []
