-- ===== src/Lib.antt =====
-- A model of sts-delegate-rs, an OAuth 2.0 token-exchange service (RFC 8693): a client presents a
-- user's token and an actor's assertion, and gets a token for one target with narrowed scopes.
--
-- The parts and their files:
--   * Core (crates/sts-core): target resolution, scope downscoping, the shape of minted claims.
--     `downscope` and `resolve_target` have the names and the order of the code.
--   * Replay (crates/sts-replay): single-use keys. Replay/Store is the trait `ReplayStore` as a record of
--     operations and laws; Replay/Memory and Replay/File fill it in. The file store works on a directory
--     that any number of stores share. In Replay/File their calls follow one another; in
--     Replay/File/Overlap the steps of calls mix: reading an expiry, removing a file, creating it. Which
--     operations of the file system fail in a call is chosen by its environment. Replay/Keys has the keys and the file names.
--   * Jose (crates/sts-jose): public keys and the verification of compact tokens against a JWKS;
--     Jose/Signer has the loading of the RSA signer and the choice of the signing backend.
--   * Verify (crates/sts-verify): trust anchors, and the policy for subject tokens and assertions.
--   * Dpop (crates/sts-dpop): the validation of DPoP proofs. Dpop/Single puts it together with a store.
--   * Config (crates/sts-config): the configuration. Config/Source reads one variable, Config/Algs the
--     algorithms, Config/Policies the two JSON policies, and Config/Load has `from_source`.
--   * Http (crates/sts-http): Http/Token is the token endpoint as a whole. It puts together Http/Headers,
--     Http/Forms, Http/Request (parameters, mode, target, scope), Http/Clients (client authentication),
--     and the two exchanges, Http/Exchange (delegation) and Http/Impersonation, over any replay
--     store and any signer, with the gates and the signing decision of Http/Policy. Http/Online has
--     introspection and revocation, over the list of Http/Revocation. Http/Service is the state that
--     requests change, Http/Deployment the rest of `HttpState`.
--     Http/Startup has the checks of the start, the public keys that are read and published, and the file signer,
--     Http/Metrics the metrics text.
--   * Cli (crates/sts-cli): the parts of the command line that decide something. Cli/Rotate is the rotation
--     of the signing key with its two files, Cli/Inspect and Cli/Report the reading of public keys and its
--     report, Cli/Claims the summary of a token, Cli/Exchange the request of the exchange command,
--     Cli/Redaction what is printed of foreign texts, and Cli/Canary the report of missing variables.
--   * Json: serde_json's values. Prelude: Rust's i64, str and Result, and lemmas on them.
--
-- Conventions. An i64 is an integer with the wrap-around of the release profile written out; theorems that
-- need it ask for moderate values, between -2^62 and 2^62. A text is a list of Unicode scalar values and its
-- `len` counts UTF-8 bytes. A map or a set is a list; a mutex is a field that says whether it is poisoned,
-- and a call that holds it is one step. The clock is an argument where the code reads it. The only
-- bound on a recursion that is the code's own is the depth of a delegation chain, which the model
-- counts down from ten as the code counts up.
--
-- Code of other crates is a parameter: SHA-256, base64, serde_json's parsing, jsonwebtoken, OpenSSL and the
-- url crate, gathered in `Backend` records. Nothing is assumed of them but what a theorem
-- names as a hypothesis.
--
-- Not modelled: network fetching, signing itself, the generation of keys and the external and post-quantum
-- signers, the HTTP routing and the rendering of responses, the metadata documents, the order of the start as a
-- whole, and of the command line the parsing of arguments, the network and the commands not named above.
pub mod Prelude
pub mod Core
pub mod Replay
pub mod Jose
pub mod Json
pub mod Verify
pub mod Config
pub mod Dpop
pub mod Http
pub mod Cli
