-- ===== src/Lib.antt =====
-- Verification of the distributed rate limiter backend.
--
-- The program answers `POST /check`: may this caller use this endpoint now? A request names an endpoint
-- and identifiers. The service validates them, finds the rule of the calling client in an in-memory cache,
-- builds the limiter that the rule's algorithm and parameters describe, and runs its Lua script in Redis.
-- Rules and groups of rules are administered in Postgres, and a poll copies them to the cache; clients
-- authenticate with secrets, are given tokens, and a second cache says which scopes they have now.
--
-- The parts, and the files that model them (paths of the repository on the right):
--
--   Prelude             lists, texts, dicts, sorting and results that the parts share
--   Identifier          model/identifier.py, model/rule_identifier_type.py: identifier types, their sets,
--                       and `normalize_identifier_types`
--   Validation          model/identifier_validation.py: every validator of an identifier's value
--   Params              services/rule_algorithm_mapper.py, model/rate_limiter_config.py and
--                       services/group_params.py: `build_algorithm_config`, `compute_effective_params`,
--                       `validate_overrides_or_raise`
--   Errors              core/exceptions.py: the exceptions, with status and code of each
--   Limiter             services/rate_limiter/*.py, services/factory.py, core/key_hasher.py: the call of the
--                       script and the reading of its reply
--   RulesCache          services/rules_cache.py: `load_all`, `upsert`, `remove` and the indexes
--   Service             services/rate_limiter_service.py: `_resolve_rule`, `_build_limiter_for_rule` and
--                       `check_rate_limit`
--   Store               model/*.py, repositories/*.py: rows, queries, and `commit` under the unique indexes
--                       and foreign keys of alembic/versions; the CHECKs on clients
--   RuleService         services/rule_service.py: create, update and delete a rule
--   GroupService        services/rule_group_service.py: create, update and delete a group, add members,
--                       detach a rule and move one to a group
--   Admin               the requests of the two services, one after the other
--   Clients             services/client_service.py, core/security/secrets.py: clients and secrets
--   Auth                services/auth_service.py, core/security/tokens.py and auth_dependency.py,
--                       services/clients_cache.py, services/clients_loader.py, api/v1/endpoints/auth.py:
--                       tokens and scopes
--   RulesLoader         services/rules_loader.py, core/scheduler.py: from the rows to the cache
--   Settings            core/settings.py: `Settings.reload` with the readers and their checks
--   Scripts             services/rate_limiter/script_loader.py, services/script_service.py: registration,
--                       the reload and the lookup of scripts
--   Fallback            core/config_loader.py, model/rate_limiter_config.py: the fallback limiter's file
--   Boot                main.py, core/redis_client.py, core/scheduler.py: `lifespan` up to its yield
--   Checks              dto/rate_limit_check_request.py, api/v1/endpoints/rate_limit.py: the schema of a
--                       check and its endpoint
--   Running             one process after its start: a step relation of requests of administrators, polls,
--                       reloads of the scripts and checks
--   Pages               the reads of api/v1/endpoints/rules.py, groups.py and clients.py with their queries
--   Bootstrap           scripts/create_client.py: the first client
--   Migrations          alembic/versions 0002 to 0013: the tables of a fresh database
--   Examples            data, tests and examples of all of these
--
-- How state and errors are modelled. The tables are a record `Db` of lists of rows; a method of a service
-- reads the tables that its queries see, and either raises an `Error` or has a `Plan`: what it writes, what
-- it raises for an IntegrityError, and what it returns. `commit` makes the writes on the tables as they
-- then stand, and rolls back where a constraint is violated or a column does not take a value. The CHECKs on
-- clients (Store/Checks) are demanded of every client that is written or seeded. The caches are records too,
-- and a write to one is a single step, since the code builds new structures and swaps them in; locks are not
-- modelled. A raised exception is a value of `Result`. No function needs fuel: every loop is over a list.
--
-- Parameters stand for code outside the repository: the coercions of pydantic and of Python numbers
-- (`Runtime`), str.lower and ipaddress (`Parsers`), json and HMAC-SHA256 (`Hasher`), SHA-256, the library
-- jwt (`Jwt`, and `JwtLaws` for what its documentation says), `lower` of Postgres and Python and
-- the texts that a column takes (`Collation`), the readings of environment variables (`Readers`), the
-- files, the parser of YAML and the answers of Redis at a start (`Surroundings`), the orders of SQL, for
-- each run of a query, and LIKE (`Queries`), the identifiers that are drawn, and the reply of Redis to a
-- call. Integers of Python are unbounded, and so are these; a commit refuses what a column does not take
-- (`is_storable`): an integer beyond 32 bits, an infinite number in JSONB, a text that Postgres refuses.
--
-- Not modelled: the Lua scripts, which run in Redis; routing, dependencies and the fields of responses that
-- only repeat a row; timestamps of rows, and so the history that a trigger writes; the shutdown and the
-- downgrades of the database; logging (but for the warnings that the service keeps state for); and what may
-- happen inside a transaction: each request, poll, reload and check is one step.
pub mod Prelude
pub mod Identifier
pub mod Errors
pub mod Params
pub mod RulesCache
pub mod Limiter
pub mod Validation
pub mod Service
pub mod Store
pub mod RuleService
pub mod GroupService
pub mod Admin
pub mod Clients
pub mod Auth
pub mod RulesLoader
pub mod Settings
pub mod Scripts
pub mod Fallback
pub mod Boot
pub mod Checks
pub mod Running
pub mod Pages
pub mod Migrations
pub mod Bootstrap
pub mod Examples
