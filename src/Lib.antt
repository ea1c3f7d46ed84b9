-- ===== src/Lib.antt =====
-- Verification of the governance core of the Aegis platform, the Python package
-- src/aegis_fabric: who may do what, which model may serve a request, what limits hold, and what
-- the ledger of decisions can be trusted for.
--
-- Parts of the program and the files that model them:
--
--   Rbac (src/aegis_fabric/rbac.py): the ladders of classification and risk, the schema EMPTY_CAPS,
--     the role templates, normalize_caps, derived_caps and template_capabilities.
--   Values (src/aegis_fabric/values.py): ResolvedValues and _apply_value_overlays, the fold by which
--     the rules of org, team and individual tighten a role's values.
--   Models (src/aegis_fabric/models.py): the registry, _find, _to_profile and the router route
--     with _satisfies; Models/Route holds the loop over the candidate chain, Models/Fallback the retries
--     and chat_with_fallbacks over the candidates.
--   Audit (src/aegis_fabric/audit.py): append_event, verify_chain, _scope_clauses, trace and last over
--     the table audit_events.
--   Approvals (src/aegis_fabric/approvals.py): the table pending_actions with create_pending,
--     list_pending, reject and approve; Kept follows a request over whatever comes between two calls.
--   Inspectors (src/aegis_fabric/inspectors.py): the pattern tables, the three inspectors and the
--     pipeline that runs them in order of priority. re.search is a parameter.
--   Policy (src/aegis_fabric/policy.py): decide over OPA's answer, require, and _fallback. OPA and the
--     printing of a JSON value are parameters.
--   Usage (src/aegis_fabric/usage.py): UsageLimiter over an interface of counter stores, which the
--     in-process store _MemoryUsage fills; the Redis store is any other instance of the interface.
--   Auth (src/aegis_fabric/auth.py): validate_token, the admin principal, its guards and the freshness
--     of sensitive calls; Rbac/Assignments has role_capabilities and resolve_assignment. The keys, the
--     decoding of a token and the splitting of a group path are parameters.
--   ValuesDocs (src/aegis_fabric/values_docs.py): who may write and read, and the endpoints that list,
--     read, create, update and delete the documents of the table values_documents.
--   Budgets (src/aegis_fabric/token_budgets.py): the budget tables, the monthly budget of a user and the
--     hierarchy of budgets. Floating-point scaling and rounding, str.lower and int are parameters.
--   RateLimit (src/aegis_fabric/ratelimit.py): the sliding window per key, an abstract log of granted
--     requests that it refines (Spec, Refines), its bound, and the fixed window of Redis, a parameter.
--   Mcp (src/aegis_fabric/mcp_gateway.py and the registry's handlers in src/aegis_fabric/admin.py): the
--     manifests, their signature and scan; Register has the tables, Machine the handlers beside the
--     queue of pending actions. Signatures, hashes, JSON printing and re.search are parameters.
--   Skills (src/aegis_fabric/signing.py, src/aegis_fabric/skills.py): canonical manifests, signing and
--     verification, and the registry that loads manifests. Json.Tree has the documents.
--   Chat (src/aegis_fabric/chat_history.py): the conversations and messages; Turn has append_turn, Owned
--     the ownership of what is reachable, RoundTrip what is read after a turn.
--   Migrations (src/aegis_fabric/migrate.py): the runner over the versions recorded in the database.
--   Isa (src/aegis_fabric/isa.py): the criteria of a task and their probes, over Inspectors.
--   Tenants (src/aegis_fabric/admin.py): teams, roles and assignments of the tenants, with the handlers
--     and their guards (Handlers), and that they stay within the administrator's tenant (Safety);
--     Lifecycle creates and deletes tenants, RoundTrip compares the tables before and after, and
--     DualControl puts deleting on the queue of Approvals;
--     Logins resets passwords and provisions logins, over Keycloak as a parameter.
--   Memory (src/aegis_fabric/memory.py): reads by four searches and writes; Terms has the terms that a
--     query is searched by.
--   Common and Json: shared tests, lists, dictionaries and the JSON values of capability maps.
--
-- How they interact: a bearer token becomes a subject with a tenant and a role (Auth), the role gives a
-- capability map (Rbac), the values resolved from it are tightened by the scopes' rules (Values), the
-- request is counted (Usage) and must be allowed by the decision point (Policy), its texts by the
-- inspectors (Inspectors), the router reads the map's routing keys (Models), every decision is
-- appended to the ledger (Audit), and a high-risk action waits for a second person (Approvals).
--
-- Conventions. A table is the list of its rows in the order of its key; a transaction of get_conn
-- commits when its block returns and rolls back when it raises. A session that reads and then writes
-- is two steps where another session may come between. Numbers are natural numbers: limits, quotas
-- and counts are not negative, and times are ticks of one clock. Every loop is structural recursion
-- over the list that it walks, or on the retries that are left, so there is no fuel. A text that is
-- None or missing is the empty text where the code treats the two alike.
--
-- Parameters: SHA-256, AES-GCM and UTF-8, str.lower, environment and secrets, the executors' effects,
-- and the services that a part calls. What a theorem needs of them is a hypothesis of it.
--
-- Not modelled: capability values that are fractions or nested objects, which the schema does not
-- have; the ledger's span ids, its UNIQUE constraint on hashes and the parsing of a month; a migration
-- file's own COMMIT; the handlers of the gateway in main.py and those of the parts above that are not
-- named, the running of skills, the tools, the workflow, documents and feedback, which the parts above
-- do not depend on; and telemetry, dashboards, provisioning and the clients of the model providers, which are
-- input and output.
pub mod Common
pub mod Json
pub mod RateLimit
pub mod Memory
pub mod Tenants
pub mod Migrations
pub mod Isa
pub mod Chat
pub mod Skills
pub mod Mcp
pub mod Rbac
pub mod Values
pub mod Models
pub mod Audit
pub mod Approvals
pub mod Inspectors
pub mod Policy
pub mod Usage
pub mod Auth
pub mod ValuesDocs
pub mod Budgets
