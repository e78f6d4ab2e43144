-- ===== src/Keys/Bounds.antt =====
-- KDF parameters outside their bounds never reach a derivation.
use vaultwarden_eso_provider.Prelude.{ℕ, ◌*◌, ◌≡◌, ◌≢◌, ◌≤◌, ◌↔◌, some, [], arith, ok}
use vaultwarden_eso_provider.Text.{Text}
use vaultwarden_eso_provider.Primitives.{Primitives}
use vaultwarden_eso_provider.Keys.{
  KdfConfig, pbkdf2_sha256, argon2id, validate_for_prelogin, derive_master_key, derive, MasterKey,
  checked_mul,
}

-- The bounds of every parameter of a configuration.
abbrev pub InBounds : KdfConfig → Type 0
InBounds (pbkdf2_sha256 iterations) = (5000 ≤ iterations) × (iterations ≤ 2000000)
InBounds (argon2id iterations memory_mib parallelism) =
    ((2 ≤ iterations) × (iterations ≤ 10))
    × ((16 ≤ memory_mib) × (memory_mib ≤ 1024))
    × ((1 ≤ parallelism) × (parallelism ≤ 16))

-- Validation accepts a configuration exactly when each of its parameters lies within its bounds.
pub validate_for_prelogin_iff :
    (kdf : KdfConfig) → (validate_for_prelogin kdf ≡ ok tt) ↔ InBounds kdf
unfolding validate_for_prelogin
validate_for_prelogin_iff (pbkdf2_sha256 iterations) = ground arith
validate_for_prelogin_iff (argon2id iterations memory_mib parallelism) = ground arith

-- A derivation that succeeds had a password and parameters within their bounds.
pub derive_master_key-InBounds :
    (p : Primitives) (password salt : Text) (kdf : KdfConfig) (key : MasterKey)
    → derive_master_key p password salt kdf ≡ ok key
    → (password ≢ []) × InBounds kdf × (derive p password salt kdf ≡ ok key)
unfolding derive_master_key
derive_master_key-InBounds p password salt kdf key h = ground (arith, validate_for_prelogin_iff kdf)

-- Within the bounds the memory in KiB does not overflow a 32-bit integer.
pub checked_mul-InBounds :
    (iterations memory_mib parallelism : ℕ)
    → InBounds (argon2id iterations memory_mib parallelism)
    → checked_mul memory_mib 1024 ≡ some (memory_mib * 1024)
checked_mul-InBounds iterations memory_mib parallelism h = ground arith
