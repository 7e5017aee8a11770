-- ===== src/Errors.antt =====
-- core/exceptions.py: the domain exceptions, and the response that each handler gives.
use distributed_rate_limiter.Identifier.{IdentifierType}
use distributed_rate_limiter.Identifier.RuleTypes.{InvalidIdentifierTypesError}
use distributed_rate_limiter.Prelude.{ℕ, String, Option, List, nat_eq, string_eq, pair_eq}

-- The exceptions of the language and of its libraries that the services meet.
pub data PyError : Type 0 where
  key_error : String → PyError
  type_error value_error overflow_error runtime_error attribute_error : PyError
  -- SQLAlchemy's `DBAPIError` for a value that a column does not take (asyncpg's `DataError`).
  data_error : PyError
  -- `redis.exceptions.ResponseError`: a script failed.
  response_error : PyError
  -- Any other `redis.exceptions.RedisError`.
  redis_error : PyError
  unsupported_rule_algorithm : String → PyError

-- A member endpoint that another active rule holds (`MemberConflictEntry`, and the dicts of
-- `create_group`).
pub record Conflict : Type 0 where
  pub endpoint : String
  pub reason : String
  pub existing_rule_id : String
  pub existing_group_id : Option String

pub data Error : Type 0 where
  rule_not_found algorithm_not_found algorithm_name_not_found : String → Error
  version_conflict : String → ℕ → ℕ → Error
  scope_conflict : String → String → Error
  cross_client_operation : String → String → Error
  rule_group_not_found group_name_conflict rule_managed_by_group : String → Error
  overrides_require_group rule_not_in_group : String → Error
  invalid_override_keys : List String → Error
  duplicate_member_endpoint : String → Error
  group_member_conflict : List Conflict → Error
  members_write_race : Error
  invalid_rule_params : String → Error
  client_not_found client_id_conflict too_many_active_secrets last_active_secret : String → Error
  client_secret_not_found : String → Error
  invalid_request : String → Error
  invalid_client : Error
  invalid_scope : List String → Error
  authentication_error authorization_error : Error
  invalid_identifier_types : InvalidIdentifierTypesError → Error
  invalid_identifier_value : IdentifierType → String → Option ℕ → Error
  script_registration_error : String → Error
  integrity_error : Error
  -- `RequestValidationError`: a body that the schema refuses.
  validation_error : Error
  -- Raised by a library or the language, with no handler of its own.
  uncaught : PyError → Error

-- The body of a response: this service's envelope, the OAuth2 shape, or the last-resort `detail`.
pub data Body : Type 0 where
  envelope oauth : String → Body
  detail : Body

pub record Response : Type 0 where
  pub status : ℕ
  pub body : Body

abbrev error_response : ℕ → String → Response
error_response status code = record { status = status; body = envelope code }

abbrev oauth_error_response : ℕ → String → Response
oauth_error_response status code = record { status = status; body = oauth code }

-- `register_exception_handlers`, with the last-resort handler of main.py behind them.
unfoldable pub respond : Error → Response
respond (rule_not_found _) = error_response 404 "RULE_NOT_FOUND"
respond (algorithm_not_found _) = error_response 422 "ALGORITHM_NOT_FOUND"
respond (algorithm_name_not_found _) = error_response 422 "ALGORITHM_NOT_FOUND"
respond (version_conflict _ _ _) = error_response 409 "VERSION_CONFLICT"
respond (scope_conflict _ _) = error_response 409 "SCOPE_CONFLICT"
respond (invalid_rule_params _) = error_response 422 "INVALID_RULE_PARAMS"
respond (cross_client_operation _ _) = error_response 409 "CROSS_CLIENT_OPERATION"
respond (rule_group_not_found _) = error_response 404 "RULE_GROUP_NOT_FOUND"
respond (group_name_conflict _) = error_response 409 "GROUP_NAME_CONFLICT"
respond (rule_managed_by_group _) = error_response 409 "RULE_MANAGED_BY_GROUP"
respond (overrides_require_group _) = error_response 422 "OVERRIDES_REQUIRE_GROUP"
respond (rule_not_in_group _) = error_response 409 "RULE_NOT_IN_GROUP"
respond (invalid_override_keys _) = error_response 422 "INVALID_OVERRIDE_KEYS"
respond (duplicate_member_endpoint _) = error_response 422 "DUPLICATE_MEMBER_ENDPOINT"
respond (group_member_conflict _) = error_response 409 "GROUP_MEMBER_CONFLICT"
respond members_write_race = error_response 409 "GROUP_MEMBER_CONFLICT"
respond (invalid_identifier_types _) = error_response 422 "INVALID_IDENTIFIER_TYPES"
respond (invalid_identifier_value _ _ _) = error_response 422 "INVALID_IDENTIFIER_VALUE"
respond integrity_error = error_response 409 "SCOPE_CONFLICT"
respond validation_error = error_response 422 "VALIDATION_ERROR"
respond (script_registration_error _) = error_response 503 "SCRIPT_REGISTRATION_FAILED"
respond (client_not_found _) = error_response 404 "CLIENT_NOT_FOUND"
respond (client_id_conflict _) = error_response 409 "CLIENT_ID_CONFLICT"
respond (too_many_active_secrets _) = error_response 409 "TOO_MANY_ACTIVE_SECRETS"
respond (last_active_secret _) = error_response 409 "LAST_ACTIVE_SECRET"
respond (client_secret_not_found _) = error_response 404 "CLIENT_SECRET_NOT_FOUND"
respond (invalid_request _) = oauth_error_response 400 "invalid_request"
respond invalid_client = oauth_error_response 401 "invalid_client"
respond (invalid_scope _) = oauth_error_response 400 "invalid_scope"
respond authentication_error = error_response 401 "UNAUTHORIZED"
respond authorization_error = error_response 403 "FORBIDDEN"
respond (uncaught _) = record { status = 500; body = detail }
