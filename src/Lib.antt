-- ===== src/Lib.antt =====
-- The domain logic of the Stocka server, a NestJS application for managing a business's storages.
--
-- Parts. The server is a set of bounded contexts (src/bounded-contexts) over shared building
-- blocks (src/shared), of which the saga engine runs the steps of the longer processes. The user
-- context keeps the accounts; the authentication context signs users in, issues codes and tokens,
-- and tells the user context by events what it has verified. The tenant context keeps the members of
-- a business and invites new ones. The authorization context decides what a member may do. The
-- onboarding context keeps a new user's answers. The storage context keeps a tenant's warehouses,
-- store rooms and custom rooms. Commands come in through controllers, a handler loads an aggregate
-- from its repository, calls one method of it, saves it, and publishes the events that the method
-- collected; a saga does so in several steps, in one transaction.
--
-- Files.
-- - Prelude: names of the libraries, Boolean tests, lists, strings as lists of UTF-16 code units with
--   `trim`, integers.
-- - Shared: `Outcome`, how a call ends (value, `err` of a neverthrow Result, or exception), chains
--   of calls on a state, and what a chain leaves of the state.
-- - Saga/Retry: `withRetry` of src/shared/domain/utils/with-retry.ts.
-- - Saga/Process: src/shared/domain/process-manager/process-manager.base.ts, and the states that
--   src/shared/infrastructure/process-manager/in-memory-process-state.ts keeps.
-- - Saga/Engine: `Saga` of src/shared/domain/saga/saga.base.ts. The world is any type, on which the
--   steps' handlers and the unit of work act; `run` is `run`, and the parts of its loop are
--   `begin_before`, `execute_step`, `on_failure` and `commit_after`.
--   Saga/Engine/TwoPhase describes a run of steps that have nothing to compensate without the engine:
--   one transaction, then the steps after it.
-- - Saga/Journal: scripted steps on a world that records the calls, and the journal that a run
--   of them must leave.
-- - Shared/Bus: a database with the event bus of the application.
-- - Users/Email: `EmailVO` of src/shared/domain/value-objects/compound/email.vo.ts; Users/Credential:
--   `CredentialAccountModel` of src/bounded-contexts/user/account/domain/models, its value objects and its
--   mapper; Users/Facade: `UserFacade` of src/bounded-contexts/user/infrastructure/facade, as far as it
--   is about credential accounts; Users/Reactions: the event handlers in application/event-handlers
--   there. The repositories are the parameter `UserContracts`.
-- - Authentication/VerificationToken, Authentication/PasswordReset, Authentication/Sessions: the
--   aggregates of src/bounded-contexts/authentication/domain and of
--   src/bounded-contexts/user/account/session/domain, with forgot-password, sign-out and the saga
--   reset-password; Authentication/Verification: the handlers of resend-verification-code and verify-email;
--   Authentication/SignIn, Authentication/Refresh: the sagas sign-in and refresh-session in
--   application/sagas there, with Authentication/Tokens, the JSON web tokens that both issue;
--   Authentication/Sagas: what holds of any saga of that context under a unit of work that isolates.
-- - Tenants/Invitation: the invitation and the member of src/bounded-contexts/tenant/domain/models;
--   Tenants/Handlers: the handlers of accept-invitation, invite-member, cancel-invitation and
--   get-invitation-by-token, with `execute` of the unit of work. The table of members is written in
--   the transaction; that of invitations is not, as its repository does not ask for the unit of work.
-- - Authorization/Resolver: `CapabilityResolver` of
--   src/bounded-contexts/authorization/domain/services/capability.resolver.ts, over the tables of its port.
-- - Authorization/Snapshot: `CapabilityService` of infrastructure/services/capability.service.ts there.
-- - RateLimit/Guard: `canActivate` of src/common/guards/rate-limit.guard.ts, where the counts of failed
--   attempts and the lookup of the account are parameters, which may throw; RateLimit/Block:
--   `evaluateBlock` of
--   src/common/interceptors/rate-limit.interceptor.ts.
-- - Onboarding/Session: `OnboardingSessionModel` of src/bounded-contexts/onboarding/domain/models, its
--   `saveProgress` and value objects; Onboarding/Handlers: the handlers of start-onboarding and
--   save-onboarding-step in application/commands there. The repository is the parameter
--   `SessionContract`.
-- - Storage/Values: src/bounded-contexts/storage/domain/value-objects. A value object is the text
--   that it wraps; the factories `create` are `create_name`, `create_color` and so on.
-- - Storage/Model: domain/models. The fields common to the three models are the record `Common`;
--   `create` is `create_warehouse_model` and so on, `with` is `with_warehouse` and so on.
-- - Storage/Lifecycle: the methods markArchived, markFrozen, markUnfrozen, markRestored and
--   markPermanentlyDeleted, which are the same in the three aggregates, over the interface
--   `StorageModel` of what they use of a model; Lifecycle/Machine has the state machine and
--   Lifecycle/Run sequences of calls.
-- - Storage/Update, Storage/Warehouse, Storage/StoreRoom, Storage/CustomRoom: domain/aggregates.
-- - Storage/Capabilities, Storage/Policy: the tier's limits (infrastructure/adapters) and the guards
--   of application/services/storage-type-change.policy.ts.
-- - Storage/Services: what the handlers are given, and `execute` of
--   src/shared/infrastructure/database/typeorm-unit-of-work.ts.
-- - Storage/Handlers: application/commands. Each handler is a function of its file's name; the
--   shapes that several share are functions too. Handlers/Requests puts the commands on a stored
--   storage into one type, and Handlers/Calls all commands, with their sequences;
--   Handlers/Maintains has the rules by which an invariant of the database goes through them.
-- - Storage/View, Storage/Listing: application/mappers and application/queries; `localeCompare` and the
--   search in lower case, which depend on tables of characters, are parameters; of the first it is used
--   that it is transitive and total.
-- - Storage/Tests: runs on a database in memory.
--
-- Conventions. A date is its number of milliseconds, and the readings of the clock in one call are
-- one parameter `now`. `undefined` is an outer `none`, `null` an inner one. Repositories, the
-- capabilities port, the transaction and the check of a uuid are parameters (`Services`): their
-- implementations call TypeORM, other contexts and the package uuid. A database is any type `W`;
-- a transaction that throws leaves the rows that it began with. Events are published in the order
-- in which they were collected. An aggregate that a repository answers with was restored from its
-- row and has no events. The hashes, the comparison of passwords, the signatures of JSON web tokens,
-- the generators of codes, tokens and uuids, lower and upper case, and the hour and the week that are
-- added to a local time are parameters. A repository or a port answers with a value or rejects; an
-- outcome `err` of one counts as a rejection in a saga and in a transaction. Lookups that the code
-- starts at once are made in order. No function takes fuel: all recursion is structural, that of
-- `withRetry` on the attempts that are left.
--
-- Not modelled: the timeout around `run`, which races it against a timer; controllers, DTO decorators
-- and module wiring, which only call the framework; TypeORM queries and, but for the credential
-- account's, the mappers; logging; the messages of exceptions, of which the class and its arguments
-- are kept. Outside of the development are the sagas sign-up and social-sign-in, the creation of users
-- and tenants, profiles, the completion of the onboarding, and the record of verification attempts.
pub mod Prelude
pub mod Shared
pub mod Saga
pub mod Authorization
pub mod RateLimit
pub mod Storage
pub mod Onboarding
pub mod Users
pub mod Authentication
pub mod Tenants
