-- ===== src/Tests/Service.antt =====
-- A witness on a resolve through the cache: the first call fetches the vault.
use vaultwarden_eso_provider.Prelude.{none}
use vaultwarden_eso_provider.Cache.{ClientState}
use vaultwarden_eso_provider.Tests.Cache.{counters}

abbrev cold : ClientState
cold = record { cache = none; retry_after = none; metrics = counters }
