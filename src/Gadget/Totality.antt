-- ===== src/Gadget/Totality.antt =====
-- cmd/ipod/main.go: the end of the loop of `processFrames`, and of its events.
use mathlib.Core.Option
use ipod.Base.{◌≡◌, Option, some}

module _ {A : Type 0} where
  -- A value that is there.
  abbrev Has : Option A → Type 0
  Has o = (a : A) × (o ≡ some a)
