-- ===== src/Factories/Tests.antt =====
-- The theorem on schemes, at a secure Redis URI.
use celeries.Base.{◌≡◌, refl, ◌↔◌, false, none, []}
use celeries.Base.Result.{ok, err}
use celeries.Base.Text.{codes, to_lower}
use celeries.Errors.{unimplemented_error}
use celeries.Uri.{Scheme, get_scheme, Runtime}
use celeries.Factories.{create_backend, create_broker}
use celeries.Factories.Schemes.{has_backend, has_broker, create_iff}

-- A run time for which no text is a URL.
abbrev js : Runtime
js = record {
  url_parse = λ _. none;
  decode_uri_component = λ s. ok s;
  is_nan = λ _. false;
  parse_int = λ _. 0;
}

create_iff_example :
    ((create_backend js [] (codes "rediss://h")
        ≡ err (unimplemented_error "Celery.Factory.createBackend"))
      ↔ (has_backend Scheme.redis_secure ≡ false))
    × ((create_broker js (codes "rediss://h")
          ≡ err (unimplemented_error "Celery.Factory.createBroker"))
        ↔ (has_broker Scheme.redis_secure ≡ false))
unfolding get_scheme to_lower
create_iff_example = create_iff js [] (codes "rediss://h") Scheme.redis_secure refl
