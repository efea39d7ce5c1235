-- ===== src/Lib.antt =====
-- Vouchr brokers third-party credentials for agents that act in Slack. This library models the parts
-- of the program that decide: who asks, what may be used, how often, and on whose approval.
--
-- Parts, with the file of the program that each models:
-- * Inflight (src/core/inflight.ts): the caps on requests in flight. `Limiter` is the class's state,
--   with the slots that its releasers stand for; `enter`, `enter_provider` and `release` are its calls.
-- * RateLimit (src/core/rateLimit.ts): the token buckets of MemoryRateLimitStore. `take` gets the clock
--   as an argument. Levels are whole numbers; the program's are floating-point numbers.
-- * Identity (src/adapters/http/identity.ts): the signed assertion that a request carries: claims,
--   minting and verification. Identity/Form says what a well-formed claim, token, key and jti are,
--   apart from the functions that test for them. HMAC, JSON and base64url are parameters (`Primitives`), with what the
--   round trip needs of them in `PrimitivesLaws`.
-- * Replay (src/adapters/http/replayStore.ts, and ReplayGuard of src/adapters/http/identity.ts): the
--   single use of an assertion. The table is shared by the replicas, each with a clock and a time of
--   its last pruning.
-- * Owner, Conversation, Policy (src/core/owner.ts, src/core/identity.ts, src/core/policy.ts): the
--   values that the rest exchanges, and a deployment's static policy.
-- * Tools (src/core/tools.ts), ChannelConfig (src/core/channelConfig.ts): what a channel has enabled
--   and whose credential it uses. The tables are lists of rows by primary key.
-- * Authz (src/core/authz.ts): the verdict on a provider, the scope of governance, the manifest of a
--   channel's tools, and whose credential serves a request.
-- * Approval (src/core/approval.ts, and the constants and the channel's purge of
--   src/core/interaction.ts): a person's approval of an agent's action. Approval/Request records a
--   request, Approval/Delivery leases the delivery of its prompt, Approval/Decision decides it, and
--   Approval/Grant spends a grant and ends rows. Each statement of SQL is a function on the rows, with
--   the database's time as an argument; Approval/Run puts them in any order. The digest of an action
--   (`action_key`), the fences of offboarded people and the binding of a worker's session are
--   arguments. Approval/Who says who decides.
-- * Egress (src/core/injector.ts, and the rules on paths, methods and hosts of
--   src/core/providers.ts): what a request must pass before its secret is read. Egress is the check
--   of path encodings, with decodeURIComponent on code points; Egress/Method the canonical spelling
--   of a method; Egress/Gate the gate, the approval rule, the key of an action
--   and the narrowing to reading; Egress/Admission is `fetch` up to its read of the vault, over the
--   stores of RateLimit and Approval. A URL is a record of the parts that the WHATWG parser gives. The digests of the query and of the action, the
--   vault's answers and the fences of a spend are arguments. Egress/Response is guardResponse, on the
--   sequence of a body's chunks.
-- * Delegation (src/core/delegation.ts), Interaction (src/core/interaction.ts): the sessions in which a
--   member lends a worker a credential. Delegation/Run puts the statements that write to the table in
--   any order. An attempt to begin a session is its times, what the vault says of live credentials
--   in between, and what others do to the table meanwhile.
-- * Fence (src/core/consent.ts, with ProviderId from src/core/providers.ts): the durable marks of
--   offboardings and of revocations, which of them apply to an identity or an owner, and what they
--   refuse. The three tables are one map from a mark's primary key to its time. The hash of a scope
--   is an argument. Fence/Kept puts all that writes marks in any order.
-- * Consent (src/core/consent.ts): the single-use states of OAuth. Consent has the rows and their reads,
--   Consent/Issue the issuing, Consent/Callback the spending and finalizing, Consent/Delivery the lease of
--   a prompt's delivery, Consent/Sweep the retention,
--   Consent/Once everything that writes to the table, in any order.
-- * Vault (src/core/vault.ts, and the channel's purge of src/core/interaction.ts): the stored
--   credentials. Vault is what is read, Vault/Write the fenced transactions that write,
--   Vault/Provision the operations that store, refresh and touch, Vault/Remove those that remove, and
--   Vault/Expiry the ages. `Tables` holds the credentials with the marks, the states and the other
--   rows that a write clears. Sealing and opening are an argument, with their failures, and
--   Vault/Sealed gives it by Crypto and the deployment's keys. A removal
--   takes whether its cleanup and its mark succeed, and what others do before it is tried again.
-- * Crypto (src/core/crypto.ts): the encryption of secrets for storage. Crypto has the three formats and
--   the routing of reads by format and key id, Crypto/Load the keys of the environment. The cipher,
--   the decoding of base64, the service that wraps data keys and the random bytes are arguments, with
--   what the round trips need of the cipher in `CipherLaws`.
-- * Rekey (src/core/rekey.ts): the re-encryption of a row under the primary key, on Crypto, with the row
--   as it was read and as it is when the update runs.
-- * Health (src/core/health.ts): who may notify the owner of a failing credential. Health/Window puts
--   the claims and releases of several replicas in any order.
--
-- A request uses them together: Inflight admits it, Identity verifies its assertion and Replay spends
-- the assertion's jti, Authz decides on the provider from Policy, Tools and ChannelConfig and says
-- whose credential serves it, or Delegation does for a worker. Egress checks where the request goes,
-- RateLimit bounds how often, and Approval asks a person first where the provider's rule says so. The
-- credential itself comes into the Vault by a Consent that its owner gave, behind the marks of Fence.
--
-- A database statement is one step on the table that it reads or writes; where the program runs
-- several in a transaction, the model's function is the transaction. Times are since the
-- epoch and never negative: milliseconds, and microseconds of the database's clock in Approval,
-- Delegation, Fence, Consent and the vault's marks. The three attempts of a request, a delivery or a session are a list. Two functions run
-- on fuel: the eight decodings of a path, which are the program's own bound, and the rounds of the
-- consent sweep, of which one more than the stale rows is enough. Each other recursion is on a list,
-- a text or a body.
--
-- Not modelled: HTTP and Slack plumbing, the injection of a token and its refresh, the
-- database drivers and advisory locks, the timers and caps around a key service, the browser's hops of the OAuth
-- callback, the sweep of an offboarded person's rows, and the loading of configuration from the
-- environment.
pub mod Base
pub mod Inflight
pub mod ProviderId
pub mod RateLimit
pub mod Owner
pub mod Conversation
pub mod Health
pub mod Identity
pub mod Replay
pub mod Rekey
pub mod Policy
pub mod Tools
pub mod Vault
pub mod ChannelConfig
pub mod Authz
pub mod Approval
pub mod Consent
pub mod Crypto
pub mod Delegation
pub mod Egress
pub mod Fence
pub mod Interaction
