-- ===== src/Lib.antt =====
-- Rakomi JavaScript SDKs: the client libraries of an authentication service, in TypeScript.
--
-- The program's parts and the files that model them:
--   * packages/sdk-core is shared by the browser and the mobile SDK. Core/AuthError and Core/Types are its
--     types/auth-error.ts and types/auth.ts; Core/AuthMachine is auth-machine.ts (`reduce`, `isSignedIn`,
--     `shouldRefresh`); Core/RefreshRetry is oauth/refresh-retry.ts (the classes of failed refreshes, the
--     one immediate retry, the delays); Core/TokenEndpoint is oauth/errors.ts with oauth/token-exchange.ts
--     (`exchangeAuthCode` in Core/TokenEndpoint/Exchange), `parseRetryAfterMs` of passkeys/errors.ts and
--     internal/request-id.ts; Core/JwtDecode with Core/Base64 and Core/Utf8 is jwt-decode.ts; Core/EventLog is event-log.ts;
--     Core/Rbac is rbac.ts.
--   * packages/sdk is the server's SDK. Node/VerifyToken and Node/TokenPayload are verify-token.ts,
--     Node/Issuer its `verifyToken` with internal/issuer.ts; Node/ResourceServer is `verifyRakomiToken` of
--     resource-server.ts, Node/Challenge its `buildChallenge` and Node/ResourceMetadata its
--     `buildProtectedResourceMetadata`;
--     Node/ClaimGuards is claim-guards.ts; Node/Dpop is verify-dpop-binding.ts, Node/CanonicalUrl its
--     internal/canonical-url.ts; Node/JwksCache is jwks-cache.ts; Node/SigningAlgorithms is
--     internal/signing-algorithms.ts; Node/Webhook is verify-webhook.ts, on which Node/PublisherWebhook
--     (verify-publisher-webhook.ts) stands; Node/LogoutToken is verify-logout-token.ts, with the memo of its
--     key caches in Node/LogoutToken/Memo; Node/Device is device.ts (the start of a device authorization, a
--     poll, the loop of `awaitDeviceTokens`); Node/Errors has the errors of errors.ts and types.ts. The
--     verification asks the key cache for a key, has jose verify the token with it, checks the claims and
--     the proof of possession, and maps the claims through the guards.
--   * packages/react is the browser's SDK. React/TokenManager is token-manager.ts, which decodes tokens and
--     delays retries with the code of packages/sdk-core. React/TokenManager/State has the fields and the
--     methods that do not wait, Refresh the refresh, Steps the histories of a tab.
--   * packages/react-native is the mobile SDK. Mobile/SubmitNonces has the submit nonces and
--     Mobile/TokenRuntime the rest of internal/token-runtime.ts: State the fields and the methods that do not
--     wait, Refresh the refresh, Steps the histories of an app, with the events that context.tsx hands to it.
--     Mobile/DpopRefresh is internal/dpop-refresh.ts with internal/dpop-session.ts. The runtime sends its
--     refreshes with the code of packages/sdk-core and tells its auth machine what they end with.
--   * packages/cli is the command line tool. Cli/RefreshLock is refresh-lock.ts, the lock file between
--     processes; Cli/TokenRefresh is token-refresh.ts, which runs under that lock; Cli/TomlConfig is
--     `mergeTomlServerTable` of toml-config.ts.
-- Common has what they share: texts as lists of UTF-16 code units, JSON values, JavaScript numbers,
-- results, lines, and laws of bit operations. Tests runs the definitions on concrete inputs.
--
-- How the program is read. A method that waits is cut at its waits; what the network, the lock or the user
-- brings is a later step, and a history is a list of such steps. A loop that waits (the polls of the device
-- grant, the DPoP refresh) instead passes a value for its environment along: the clock, the server, the
-- prover. The lock is a system of any number of processes; each call of the file system is one step of one of
-- them. A step reads the clock once, where the statement has no clock of its own. An exception is `thrown`
-- or `none`. Differences of times are written additively, since subtraction on natural numbers stops at 0.
-- Numbers of JSON are whole, infinite or NaN: fractions are not modelled, and `exp`, `iat`, `expires_in`,
-- `interval` and `Retry-After` are taken to be whole. The random part of a delay is a numerator over 2 ^ 32
-- in exact arithmetic, in place of floating point.
--
-- Bounds. The UTF-8 decoder runs on fuel, with the number of bytes as fuel: each round takes at least one
-- byte. `decimal` has the number itself as fuel: each digit divides it by ten. The loop of
-- `awaitDeviceTokens` has the source's own 2000 iterations. All other loops are structural.
--
-- Parameters. jose, Web Crypto, `atob`, `TextDecoder`, `JSON.parse`, `Date.parse`, the URL parser, the date
-- format, the prover of DPoP proofs, the requests and the clock are arguments (`Platform`, `Services`,
-- `import_jwk`, the sections of Mobile/DpopRefresh and Node/Device); no theorem assumes more of them than it
-- states.
--
-- Not modelled: user interface, translations, storage adapters and browser channels, native adapters, the
-- commands of the command line tool, the project generator, the authorization-code flow and the other OAuth
-- calls, the callback between start and polls of the device grant, and the console warnings of the
-- verification. The mobile runtime's storage answers at once and does not fail.
pub mod Common
pub mod Core
pub mod Node
pub mod React
pub mod Mobile
pub mod Cli
mod Tests
