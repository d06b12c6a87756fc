-- ===== src/Node/TrustWeight/Known.antt =====
-- The weights that the store knows.
use p2s.Prelude.{◌≡◌, some, if◌then◌else◌, nat_eq, list_beq, list_eq, lookup-insert, Text}
use p2s.Float.{Float}
use p2s.Node.Sled.{Sled}
use p2s.Node.TrustWeight.{TrustWeightStore, set, get}

module _ (fl : Float) (sled : Sled) where
  -- A weight that was set is the one that is known for its address, with or without a database, and
  -- no other address is affected.
  pub get-set :
      (s : TrustWeightStore fl sled) (address other : Text) (w : fl.F64)
      → get fl sled (set fl sled s address w) other
        ≡ (if list_beq address other then some w else get fl sled s other)
  unfolding get set
  get-set s address other w = lookup-insert address other w s.weights
