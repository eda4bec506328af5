-- ===== src/Lib.antt =====
-- heave: the spend firewall, its tickets, and the services around it.
--
-- heave is a gateway in front of language-model vendors. Each request is authenticated and held to a
-- client's own limits (controls), resolved to a chain of scopes (policy), admitted by the firewall,
-- sent to a provider that is healthy, and at the end settled and recorded in the ledger. The firewall
-- is the core: it keeps, for each scope, a sliding window of spend and the calls in flight, and for
-- each run its spend, its recent prompts and whether it was killed.
--
-- The parts and their files. Paths are from the repository's root.
--   internal/firewall/firewall.go
--     Firewall/Window   the ring of one-second slots: newWindow, advance, add, sum. Window/Ring has
--                       the lemmas on one ring, Window/Laws the shape and the totals, and
--                       Window/Refinement relates a window to the log of its amounts.
--     Firewall/Kills    memKillStore: Kill, Killed, gc, stats; Laws for one operation, Trace for
--                       sequences of them.
--     Firewall/State    the records, the constants, New, WithKillStore, WithScopeStore.
--     Firewall/Local    gcLocked, ensureScopeLocked, tripLoopLocked, checkLoopBudgetLocked,
--                       checkVelocityLocked, checkReserveScopesLocked, unreserveBudgetLocked.
--                       Local/View says what a caller sees of a scope, Local/Reserve specifies the
--                       chain's check, Local/Budget and Local/Spent the run's budget.
--     Firewall/Enter    Enter, EnterChain, enterChain, enterLocked, enterShared, isKilled, doKill,
--                       KillRun, Kill, Killed, Stats, runKey, sharedCaps. Enter/Gate and Enter/Admit
--                       are about the local gate, Enter/Dead about kills, Enter/Keys about run keys.
--     Firewall/Tickets  Settle, Release, Reservation, ticketFrom and their reservation forms;
--                       Tickets/World says what they leave of the shared stores' world.
--   internal/health/health.go      Health, with Breaker for its specification.
--   internal/ledger/ledger.go      Ledger, with Totals, Ring and Top.
--   internal/controls/controls.go  Controls, with Rate and Budget.
--   internal/policy/policy.go      Policy, with Tree for the invariant, Paths for the walk and Chains for what it emits.
--   internal/enforcer/enforcer.go  Enforcer, which hands a policy chain to the firewall;
--                                  Contract is about Resolve, Handover about the gate.
--   internal/router/router.go      Router, with Candidates.
--   internal/cache/state.go        Cache, with Warmth.
--   internal/server/server.go      Dispatch, from runCandidates to the settlement of a request that has
--                                  its ticket and reservation; Free is about the loop, Endings
--                                  and Charges about how it ends and what it is charged.
--   internal/server/server.go      Request, what is computed of a chat request from bearerToken to
--                                  maxEstimate, with Estimates.
--   internal/server/guard.go       Guard, the decision API over the enforcer and the firewall, with
--                                  validRunID and resolveChain of internal/server/server.go; Restores,
--                                  Local and Holds are about what a reserve holds, Tokens about its signed
--                                  reservations, Once about their settling. SignedToken is the codec
--                                  that it shares with the console.
--   internal/console/console.go    Console, with Sessions; Console/Passwords is passwords.go, and
--                                  Console/Http internal/server/console_http.go, with Redirects.
--   internal/config/config.go      Config, whose checks are Config/Checks; Valid, Validate and Lists
--                                  are about validation.
--   internal/pgledger/pgledger.go  Pgledger, the durable sink of the ledger. Account has every
--                                  interleaving of its writers, its loop and Close; Shutdown is
--                                  about Close.
--   internal/broker/broker.go      Broker, over the firewall's scope store, with Repeats.
--   internal/redact/redact.go      Redact, with Luhn and Patterns.
--   internal/cachebench/bench.go   Cachebench, with Total and Agree.
-- Prelude has what they share: tests on numbers, lists, signed amounts, byte strings, association
-- lists. Tests applies the theorems to small inputs.
--
-- How the code corresponds. A method that changes state is a function from the old state to the new
-- one and its result; an error is a value. The mutexes make each method's locked section one step, so
-- interleavings of requests are sequences of calls. A Go map is an association list with at most one
-- entry a key. The clock is read once a call, twice in the OAuth callback, and passed in, in
-- nanoseconds; `unix` gives its second, and a zero time is `none` or 0 as the code tests it. Money is whole nano-dollars in place of a
-- float64, so sums are exact; caps and settled amounts are signed, estimates are clamped at 0 as the
-- gate does. Other integers are unbounded. A new hold id is an argument in place of crypto/rand, and
-- SHA-256 is a function argument. The shared kill store and the shared scope store are records of
-- operations over a state `S` of their own, and nothing is assumed of them. sort.Slice is an
-- insertion sort by the same order. The text of error messages is left out.
--
-- More parameters, each a function or a record of functions: base64, the HMAC under a secret and
-- PBKDF2; the JSON of a claim, a session and a state; the store that claims the nonce of a
-- reservation; the identity providers; reading a file, decoding YAML and compiling a regular
-- expression, which as a value is the way it cuts a text into matches and the rest. What a
-- theorem needs of them it names: that decoding inverts encoding (for the JSON of a session or a
-- state, of ASCII texts), that an encoded text has no dot or no dollar sign, that a derived key
-- has the length asked for, that a claimed nonce is not claimed again unless the store fails.
-- strings.TrimSpace and strings.ToLower are those of ASCII. The loop of the durable sink, its
-- timer and the goroutines that write are the steps of a relation; whether a flush fails is an
-- argument of the step. The cost simulator computes with exact numbers in place of float64: a
-- cost counts in twenty-millionths of the price's unit and a difficulty in steps of 2 ^ -53; a
-- rate is a ratio, and an index out of range is `none`. In a dispatch, what each vendor would
-- answer and when is listed with its candidate, and amounts are in the unit of Ledger.cost.
--
-- Fuel. `decimal` prints a number n on n + 1 steps, more than it has digits. The walk from a
-- node to its root takes 3 steps, as the hierarchy has three levels (Policy/Paths).
--
-- Not modelled: the chat handler of internal/server/server.go that joins Request to Dispatch, its
-- other endpoints, the policy endpoints and the pages; the providers and wire formats; the Redis
-- client with its scripts, which is a parameter; the SQL and the pool of the Postgres ledger; the
-- HTTP calls to identity providers; the built-in expressions of the scrubber; the generator of
-- the benchmark's scenarios; and the commands. In the ledger, the log line and SinkDropped; in
-- the policy, Snapshot and OverAllocations.
pub mod Prelude
pub mod Firewall
pub mod Health
pub mod Ledger
pub mod Controls
pub mod Policy
pub mod Router
pub mod Enforcer
pub mod Cache
pub mod Pgledger
pub mod Config
pub mod SignedToken
pub mod Guard
pub mod Broker
pub mod Console
pub mod Cachebench
pub mod Redact
pub mod Dispatch
pub mod Request
pub mod Tests
