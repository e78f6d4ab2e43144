-- ===== src/Lib.antt =====
-- Verification of vaultwarden-eso-provider: a webhook for the External Secrets Operator that reads
-- secrets from a Bitwarden or Vaultwarden account.
--
-- A request names an item of the vault. The provider logs in with an API key, unlocks the account's
-- user key with the master password, synchronizes the encrypted items, keeps them in a cache, and
-- decrypts and extracts what the request selects.
--
-- Files and what they model:
--   Core           crates/bweso-core/src/lib.rs: references, documents, required fields
--   Crypto         crates/bweso-bitwarden/src/crypto.rs: `EncryptedString::from_str` is `parse`
--   Keys           crates/bweso-bitwarden/src/keys.rs: KDF bounds, master key, `unlock_user_key`
--   Cipher         crates/bweso-bitwarden/src/cipher.rs: `decrypt`; Cipher/Extraction has
--                  `extract_property` and `to_secret_document`
--   Selector       crates/bweso-bitwarden/src/lib.rs, `BitwardenSelector`; `CipherLookup` of api.rs
--   Errors         `BitwardenApiError` and `BitwardenClientError`
--   Api            crates/bweso-bitwarden/src/api.rs: bodies, KDF responses, `unlock_session`
--   Vault          the same file: lookup of an item in a `SyncResponse`, and its document
--   Cache          the same file: `CachedVault` and the refresh under its lock; in Cache/Tasks, calls
--                  of the refresh by several tasks, as steps between two awaits
--   Policy         crates/vaultwarden-eso-provider/src/main.rs: `PolicyRules`, its sources, reloads
--   Auth           crates/vaultwarden-eso-provider/src/auth.rs: bearer tokens and capabilities;
--                  Auth/Config has the policy file and the configured mode
--   Resolve        the handler `resolve` of main.rs; Resolve/Messages has the statuses of errors
--   Endpoints      crates/bweso-bitwarden/src/lib.rs: `BitwardenEndpoint::parse_named`, the bases that
--                  are built from it, and `endpoint_url` of api.rs
--   Client         crates/bweso-bitwarden/src/api.rs: `with_options`, the login, the sync and
--                  `fetch_vault`, which returns the requests that were sent beside its result;
--                  Client/Options has the options and their builders, Client/Contacts the URLs that
--                  a fetch sends to
--   Startup        main.rs from the arguments to the state that is served, and the healthcheck
--   Server         the probes of main.rs, and `record_http_metrics` around every handler
--   Metrics        crates/vaultwarden-eso-provider/src/metrics.rs: the registry, its histograms, and
--                  the text that `render` writes
--   Reloading      main.rs: the tasks that reload the two policies, and the gauges they set
--   Lifecycle      crates/vaultwarden-eso-provider/src/lifecycle.rs: the statements of the task that
--                  marks the shutdown and of one that waits for it, in any order
--   Text, Utf8, TreeMap, Primitives, Prelude: Rust's `str`, UTF-8 and `BTreeMap`, the functions of
--                  other crates, and what the modules share
--   Tests          concrete inputs
--
-- A text is the list of its Unicode scalar values and bytes are numbers. `Result` is a result type
-- and `?` is its bind. The state of the API client is a record (`ClientState`) that a call takes and
-- returns; what the clock and the server give is an argument (`Readings`, `Fetched`). Loops are
-- recursions on their lists. Instants are nanoseconds, and the additions that
-- Rust checks are checked at the width that Rust has.
--
-- Cryptography, base64, the JSON parser, the Unicode lower case, URLs, floating-point numbers and the
-- answers of the server are parameters. The digits of a number are written on fuel, one more than the
-- number, and a lemma shows that this is enough. Not modelled: HTTP itself, the routing of axum, the
-- parsing of the command line, timers, logging, the wiping of secrets from memory, and
-- a call of the refresh that is dropped halfway. Of reqwest, whose redirects the client switches off,
-- the parameter `Upstream` says what is answered to a request and to which URLs it is sent.
pub mod Prelude
pub mod Text
pub mod TreeMap
pub mod Utf8
pub mod Core
pub mod Primitives
pub mod Crypto
pub mod Keys
pub mod Cipher
pub mod Errors
pub mod Selector
pub mod Api
pub mod Vault
pub mod Cache
pub mod Policy
pub mod Auth
pub mod Resolve
pub mod Lifecycle
pub mod Endpoints
pub mod Client
pub mod Startup
pub mod Server
pub mod Metrics
pub mod Reloading
pub mod Tests
