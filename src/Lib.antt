-- ===== src/Lib.antt =====
-- weave-adapters is a Go service that puts a REST API in front of Windows Server DHCP. Its
-- core packages are shared by every adapter; one adapter, for DHCP on Windows, stands on
-- them. This library models the decision logic of those packages and proves what it
-- guarantees. Paths below are from the repository's root.
--
-- Prelude: numbers, 64-bit integers, lists and case splits that all parts share.
-- Winsvc (internal/core/winsvc/controller.go): the session behind the Windows service
--   manager. `Controller.Run` is `run`; its three loops are `starting`, `serving` (`running`
--   in the source) and `draining`; `control`, `finish` and `abandon` keep their names. The
--   values that its channels and timers deliver are one list of arrivals, so a theorem over
--   all lists is one over all interleavings. Reports and calls of `cancel`, the
--   deferred one included, are recorded.
-- Setup (internal/core/setup): Reconcile is reconcile.go and plan.go: `runOver` is `run_over`,
--   its first loop `check_all`, and `applyPending` is `apply_pending`. A step is its name and
--   its two functions on the plan, so theorems hold for any steps.
-- Pagination (internal/core/pagination): Page is page.go without the JSON envelope, Token is
--   token.go over two codec parameters (base64url and encoding/json) with the promises in
--   `Faithful` and the sizes of their texts in `HasSizes`, Slice is slice.go with the cursor
--   that `Next` mints, Search is the library's binary search that it calls, and Walk is a
--   client that follows the tokens.
-- Dhcp (internal/adapters/dhcpwindows): Addr is the part of create.go on addresses and masks,
--   with the dotted form of Go's `netip` written out; Create, Env, Update, EffectiveRange and
--   Drift are `ScopeInput`, the scripts' parameters, `ScopeUpdate`, `validateEffectiveRange`
--   and the drift ledger; Client and Operations are `Client` over a runner, a JSON decoder and
--   a keyed hash that are parameters.
-- Etag (internal/core/etag/etag.go): `Matches` with `splitTags` and `opaqueTag`, on code points;
--   Listed, Trimmed and Matching are about what it answers for a list of tags.
-- Auth (internal/core/auth): Store is store.go, token.go and mint.go; Save its `Save` on the
--   files that a crash would leave, Expiry its text of an expiry and its rows for TOML;
--   Verifier, Bearer and Middleware are verifier.go and bearer.go. Labels, Minted, Seconds,
--   Admission and Blind are about them. SHA-256, base64, random bytes, TOML, the calendar and
--   RFC 3339 are parameters.
-- Events (internal/core/events): event.go, registry.go, emit.go and context.go, with the client
--   errors and API-011 of catalog/api.go in Catalog. A panic is `none`.
-- Apierror (internal/core/apierror): taxonomy.go, problem.go and write.go; Answers is about them.
-- Health (internal/core/health): component.go, and of health.go the cache and its transitions.
-- Http: Writer is the response that Go's net/http builds, as far as the program sees it, and a
--   handler as the calls it makes; Recorder, Problem and Middleware are internal/core/httpx and
--   internal/core/middleware, Server is internal/core/httpserver/server.go, Conditional is
--   internal/core/etag/handler.go. Transparent, Beside, Replaced and Recovered say what stands
--   behind them.
-- Provision, Deploy and Verify, in Setup, are the steps of setup/provision.go, deploy.go and
--   verify.go, for which a run of Reconcile is generic; the token step uses the store of Auth,
--   the verification the components of Health.
-- Config (internal/core/config): key.go and loader.go; ServicePath is servicepath.go and the
--   check of config.go. Names is about the flags and variables that keys derive, Typed about
--   the values that they resolve to, Located about the paths of a service.
-- Bounds and fuel: the binary search runs on one more round than the collection has items,
-- which suffices since the searched range shrinks in each round; a walk has one more request
-- than items; the verification of a setup runs on one round more than its budget has seconds,
-- which suffices since each round waits one. A page size is a 64-bit `int`, and theorems about
-- pages ask that the size and the collection's length together stay below 2^63. A checkpoint
-- is a uint32 and wraps.
--
-- Not modelled: input and output, Go's calendar and RFC 3339, the JSON and TOML
-- libraries, cryptography, the Windows APIs and PowerShell, generated API types, and the
-- wiring of the command line.
pub mod Prelude
pub mod Winsvc
pub mod Setup
pub mod Pagination
pub mod Config
pub mod Dhcp
pub mod Etag
pub mod Events
pub mod Health
pub mod Http
pub mod Apierror
pub mod Auth
