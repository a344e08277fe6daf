-- ===== src/Tracing/Tests.antt =====
-- Two attributes of the environment, read back.
use microsvc.Prelude.{some, List, [], ◌∷◌, codes, ◌≡◌, refl}
use microsvc.Prelude.Lists.{All}
use microsvc.Tracing.{Text, resource_attribute}
use microsvc.Tracing.Laws.{IsPlain, written, value_of, resource_attribute-written}

abbrev attributes : List (Text × Text)
attributes =
    (codes "service.namespace", codes "bank=eu")
    ∷ (codes "deployment.environment", codes "staging")
    ∷ []

plain : All IsPlain attributes
plain = (
  record { key_whole = (refl, refl); value_whole = refl; trimmed = (refl, refl) },
  (record { key_whole = (refl, refl); value_whole = refl; trimmed = (refl, refl) }, tt),
)

resource_attribute-written_example :
    resource_attribute (some (written attributes)) (codes "service.namespace") (codes "banking-app")
    ≡ value_of attributes (codes "service.namespace") (codes "banking-app")
resource_attribute-written_example =
    resource_attribute-written attributes b's' (codes "ervice.namespace") (codes "banking-app")
      plain
