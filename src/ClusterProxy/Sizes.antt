-- ===== src/ClusterProxy/Sizes.antt =====
-- The sizes of claims in cluster-proxy/server/main.go, a product in 32 bits.
use balticlsc_platform.Common.{ℕ, ◌*◌, ◌^◌, ◌<◌, ◌≡◌, ◌↔◌, arith}
use balticlsc_platform.Common.Int.{pos, to_int32}
use balticlsc_platform.ClusterProxy.Proto.{XVolumeDescription}
use balticlsc_platform.ClusterProxy.Run.{claim_bytes}

-- A claim asks for exactly 1024 bytes for each unit of a size that is not negative, if and only if the
-- size is below 2 ^ 21; from there on the product overflows.
pub claim_bytes-exact :
    (vol : XVolumeDescription) (n : ℕ)
    → vol.size ≡ pos n
    → (claim_bytes vol ≡ pos (n * 1024)) ↔ (n < 2 ^ 21)
unfolding claim_bytes to_int32
claim_bytes-exact vol n h = (λ e. ground arith, λ below. ground arith)
