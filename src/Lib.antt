-- ===== src/Lib.antt =====
-- Verification of the back end of wattanman, a platform of schools: the lifecycle of the extensions
-- that a school installs, the guards that the platform puts around requests and commands, and what
-- keeps the schools apart. The code is in backend/src of the repository.
--
-- The parts and how they interact. A publisher, through its members (Catalogue.Members), uploads versions of
-- its extensions, which are inspected, reviewed and published (Catalogue.Releases) if the modules that they
-- depend on are there (Catalogue.Graph), and are blocked with the key that has signed them or with their
-- publisher (Catalogue.Standing). A school administrator requests an extension and pays for it
-- (Extensions.Requests); a platform administrator approves the request, and the commands of
-- Extensions.Lifecycle and Extensions.Upgrade move the row of the installation on. Each command asks the
-- kill switches (Extensions.Controls), the ranges of versions (Extensions.Ranges), the dependencies and
-- permissions (Extensions.Dependencies) and, for a declarative module or a theme, the migration of its
-- records or the school's theme (Extensions.Migrations, Extensions.Themes). The users of a school write the
-- records of a module (Extensions.Records) and read them page by page (Common.Pages). Commands run as jobs
-- (Extensions.Jobs), which the scheduler submits too (Extensions.Updates), under a lock per resource
-- (Security.Lock) and once per window (Security.Schedule). Requests pass the throttle, the resource
-- governor, the idempotency interceptor and, for other services, the circuit breaker (Security). Queries
-- are scoped to the school of the request (Schools.Tenancy), and a school is deleted by a request, its
-- approval, its execution and a job (Schools.Deletion). The school of a request is found by its host name
-- (Schools.Domains).
--
-- Which file models what:
--   Base and its children: tests, lists, results, maps, and `Table`, the interface of a database table.
--   Security/CircuitBreaker: backend/src/security/circuit-breaker.service.ts
--   Security/Throttle: backend/src/security/redis-throttler.storage.ts
--   Security/Lock: backend/src/security/distributed-lock.service.ts
--   Security/Schedule: backend/src/security/scheduled-task-guard.service.ts
--   Security/Idempotency: backend/src/security/idempotency.store.ts and idempotency.interceptor.ts
--   Security/Governor: backend/src/platform/extension-resource-governor.service.ts
--   Extensions/Controls: backend/src/platform/extension-control.service.ts
--   Extensions/Types, Ranges, Dependencies, Themes, Migrations, Requests, Lifecycle and Upgrade:
--     backend/src/platform/extension-installations.service.ts, with the columns of
--     backend/prisma/schema.prisma
--   Extensions/Jobs: backend/src/platform/extension-lifecycle-jobs.service.ts
--   Extensions/Updates: backend/src/platform/extension-update.service.ts
--   Extensions/Records: backend/src/platform/extension-runtime.service.ts
--   Catalogue/Members, Types, Graph, Releases, Prices, Currency and Standing: backend/src/platform/extensions.service.ts, with
--     the guards of a signature of extension-signing.service.ts beside it
--   Common/Pages: backend/src/common/cursor-pagination.ts
--   Schools/Tenancy: backend/src/database/tenant-query-policy.ts
--   Schools/Domains: backend/src/tenancy/school-domain.service.ts
--   Schools/Deletion: backend/src/platform/school-deletion.service.ts
--   Examples and its children: the theorems at concrete inputs.
-- A method `assertRequestAllowed` is the function `assert_request_allowed`, and so on; a child of a
-- module holds what is proved of it. Times are in milliseconds and arguments, as is what the database,
-- the object store, the queue, the signing key and a hash answer. An exception is the `err` of a result.
-- A transaction takes effect as a whole or not at all. Every other loop is structural recursion on the
-- list that it walks. Numbers are natural numbers: the counters and sizes of the code stay
-- far below the bound of its safe integers, and a subtraction is written with its guard.
--
-- Two searches take fuel. The search for a cycle of dependencies has one step more than the graph has
-- nodes, which is enough since the keys on its path are different ones of the graph; a client that reads a
-- list page by page has one more than there are rows, since a page before the last has a row.
--
-- Not modelled: the Redis branches of the stores (scripts of another program), signatures, archives and
-- validation of packages, the creation, deletion, collections and listings of extensions, the pages and
-- filters of the runtime of declarative modules, authentication, the provisioning of schools, the
-- normalisation of host names, alerts and metrics, the command-line tools, the web front end and the SQL
-- migrations.
pub mod Base
pub mod Common
pub mod Catalogue
pub mod Schools
pub mod Security
pub mod Extensions
pub mod Examples
