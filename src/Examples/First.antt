-- ===== src/Examples/First.antt =====
-- Tests and examples of the first client.
use distributed_rate_limiter.Bootstrap.{main, already_exists, main_with}
use distributed_rate_limiter.Bootstrap.Admitted.{IsAdmitted, main-IsAdmitted}
use distributed_rate_limiter.Clients.{ClientCreate}
use distributed_rate_limiter.Errors.{integrity_error}
use distributed_rate_limiter.Examples.Clients.{tokens, plain, empty}
use distributed_rate_limiter.Examples.Groups.{db}
use distributed_rate_limiter.Examples.Signing.{jwt, jwt-JwtLaws}
use distributed_rate_limiter.Prelude.Dict
use distributed_rate_limiter.Store.{get_client_by_client_id}
use distributed_rate_limiter.Store.Checks.{meets_checks}
use distributed_rate_limiter.Validation.{every}
use distributed_rate_limiter.Prelude.{◌≡◌, refl, none, [], ◌∷◌, ok, raise, arith, text_length}

abbrev operator : ClientCreate
operator = record {
  client_id = "admin-cli";
  name = "Operator";
  description = none;
  scopes = "admin" ∷ [];
}

main_again :
    main plain "c9" "s9" "secret" (record operator { client_id = "acme" }) db
    ≡ (ok (already_exists "c1"), db)
unfolding main main_with get_client_by_client_id
main_again = refl

main_spaced :
    main plain "c9" "s9" "secret" (record operator { client_id = "admin cli" }) db
    ≡ (raise integrity_error, db)
unfolding main main_with get_client_by_client_id meets_checks text_length every
main_spaced = refl

main-IsAdmitted_example :
    IsAdmitted plain jwt tokens "c9" "s9" "secret" operator db 10 "j1" 300 600 "admin" empty
unfolding get_client_by_client_id meets_checks text_length every Dict.get
main-IsAdmitted_example =
    main-IsAdmitted plain "c9" "s9" "secret" operator db refl refl jwt tokens "key" refl 10 600 300
      "j1" "admin" empty jwt-JwtLaws (omega arith) (omega arith)
