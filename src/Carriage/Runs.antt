-- ===== src/Carriage/Runs.antt =====
-- The carriage of a packet at a concrete input.
use ipod.Base.{ℕ, List, [], ◌∷◌}
use ipod.Hid.Defs.{ReportDef, acc_in}

abbrev one_def : List ReportDef
one_def = record { id = 1; len = 5; dir = acc_in } ∷ []

abbrev payloads : List (List ℕ)
payloads = (1 ∷ 2 ∷ 3 ∷ []) ∷ []
