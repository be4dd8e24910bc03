-- ===== src/Prelude/Bits.antt =====
-- Facts on bytes and on bit masks, where the tactics take a bit operation for an unknown.
use Prim.Native.Nat.{ℕ, zero, suc, ◌<◌}
use mathlib.Core.Path.{◌≡◌}
use mathlib.Core.Bool.{Bool, true, ◌&&◌}
use native.Mathlib.Omega.{arith}

-- Whether a test passes at every number under `bound`: run by evaluation, for bytes.
unfoldable pub passes_under : (ℕ → Bool) → ℕ → Bool
passes_under test zero = true
passes_under test (suc bound) = passes_under test bound && test bound

pub passes_under-at :
    (test : ℕ → Bool) (bound byte : ℕ)
    → passes_under test bound ≡ true
    → byte < bound
    → test byte ≡ true
unfolding passes_under
passes_under-at test zero byte all lt = absurd (omega arith)
passes_under-at test (suc bound) byte all lt = ground (arith, passes_under-at test bound byte)
