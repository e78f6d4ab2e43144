-- ===== src/Api/Session.antt =====
-- What an unlocked session rests on, the operator's memory budget included.
use vaultwarden_eso_provider.Prelude.{
  ℕ, ◌≡◌, ◌≤◌, ap, ◌∙◌, some, arith, ok, >>=-eq-ok, map_err, map_err-eq-ok, ok_or, ok_or-eq-ok,
  and_then,
}
use vaultwarden_eso_provider.Text.{Text}
use vaultwarden_eso_provider.Primitives.{Primitives}
use vaultwarden_eso_provider.Keys.{
  KdfConfig, pbkdf2_sha256, argon2id, MasterPasswordUnlockData, unlock_user_key,
}
use vaultwarden_eso_provider.Keys.Unlock.{IsUnlocked, unlock_user_key-IsUnlocked}
use vaultwarden_eso_provider.Errors.{api, key_derivation, missing_master_password_unlock}
use vaultwarden_eso_provider.Api.{
  TokenResponse, MasterPasswordUnlockResponse, BitwardenSession, unlock_data_from,
  check_memory_limit, unlock_session,
}

-- The memory of Argon2id is within the budget.
abbrev pub FitsMemory : KdfConfig → ℕ → Type 0
FitsMemory (pbkdf2_sha256 iterations) limit = Unit
FitsMemory (argon2id iterations memory_mib parallelism) limit = memory_mib ≤ limit

check_memory_limit_sound :
    (kdf : KdfConfig) (limit : ℕ) → check_memory_limit kdf limit ≡ ok tt → FitsMemory kdf limit
unfolding check_memory_limit
check_memory_limit_sound (pbkdf2_sha256 iterations) limit h = tt
check_memory_limit_sound (argon2id iterations memory_mib parallelism) limit h = ground arith

-- The unlock data that a session was unlocked with, and its checks.
pub record IsSession (p : Primitives) (response : TokenResponse) (password : Text) (limit : ℕ)
    (session : BitwardenSession) : Type 0 where
  pub unlock : MasterPasswordUnlockResponse
  pub offered :
      and_then response.user_decryption_options (λ options. options.master_password_unlock)
      ≡ some unlock
  pub unlock_data : MasterPasswordUnlockData
  pub read : unlock_data_from unlock ≡ ok unlock_data
  pub fits : FitsMemory unlock_data.kdf limit
  pub unlocked : IsUnlocked p unlock_data password session.user_key
  pub same_token : session.access_token ≡ response.access_token
  pub same_expiry : session.expires_in ≡ response.expires_in

-- A session comes only from a response with unlock data whose KDF parameters are within their
-- bounds and, for Argon2id, within the memory budget; its user key was unlocked with the password
-- from that data, and its token and expiry are those of the response.
pub unlock_session-IsSession :
    (p : Primitives) (response : TokenResponse) (password : Text) (limit : ℕ)
    (session : BitwardenSession)
    → unlock_session p response password limit ≡ ok session
    → IsSession p response password limit session
unfolding unlock_session
unlock_session-IsSession p response password limit session h =
    let (unlock, e₁, h₁) =
      >>=-eq-ok
        (ok_or (api missing_master_password_unlock)
          (and_then response.user_decryption_options (λ options. options.master_password_unlock)))
        _ h in
    let (unlock_data, e₂, h₂) = >>=-eq-ok (map_err api (unlock_data_from unlock)) _ h₁ in
    let (_, e₃, h₃) =
      >>=-eq-ok (map_err key_derivation (check_memory_limit unlock_data.kdf limit)) _ h₂ in
    let (user_key, e₄, h₄) =
      >>=-eq-ok (map_err key_derivation (unlock_user_key p unlock_data password)) _ h₃ in
    let key : user_key ≡ session.user_key = ground arith in
    record {
      unlock = unlock;
      offered = ok_or-eq-ok _ _ e₁;
      unlock_data = unlock_data;
      read = map_err-eq-ok api _ e₂;
      fits = check_memory_limit_sound unlock_data.kdf limit (map_err-eq-ok key_derivation _ e₃);
      unlocked =
          unlock_user_key-IsUnlocked p unlock_data password session.user_key
            (map_err-eq-ok key_derivation _ e₄ ∙ ap ok key);
      same_token = ground arith;
      same_expiry = ground arith;
    }
