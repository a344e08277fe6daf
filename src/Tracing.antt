-- ===== src/Tracing.antt =====
-- frontend/src/instrumentation.ts: the attributes of the resource, read out of the environment, and
-- what `register` sets up. A text is the list of its code points. The packages of OpenTelemetry are
-- a parameter, and so is the answer to whether they can be loaded.
pub mod Laws
mod Tests
use microsvc.Prelude.{
  ℕ, ◌==◌, ◌&&◌, ◌||◌, String, Bool, true, false, not, Option, none, some, or_else, nonempty,
  is_some, List, [], ◌∷◌, codes, if◌then◌else◌, str_eq,
}
use mathlib.Core.List.{reverse, ◌++◌}
use microsvc.Validation.{is_space}

abbrev pub Text : Type 0
Text = List ℕ

abbrev pub text_eq : Text → Text → Bool
text_eq [] [] = true
text_eq [] (d ∷ ds) = false
text_eq (c ∷ cs) [] = false
text_eq (c ∷ cs) (d ∷ ds) = c == d && text_eq cs ds

abbrev pub onto_first : ℕ → List Text → List Text
onto_first c [] = (c ∷ []) ∷ []
onto_first c (p ∷ ps) = (c ∷ p) ∷ ps

-- `text.split(mark)`
unfoldable pub split : ℕ → Text → List Text
split mark [] = [] ∷ []
split mark (c ∷ cs) =
    let parts = split mark cs in if c == mark then [] ∷ parts else onto_first c parts

-- `parts.join(mark)`
unfoldable pub join : ℕ → List Text → Text
join mark [] = []
join mark (p ∷ []) = p
join mark (p ∷ q ∷ parts) = p ++ mark ∷ join mark (q ∷ parts)

abbrev pub trim_start : Text → Text
trim_start [] = []
trim_start (c ∷ cs) = let rest = trim_start cs in if is_space c then rest else c ∷ cs

-- `text.trim()`
abbrev pub trim : Text → Text
trim text = reverse (trim_start (reverse (trim_start text)))

-- `text || fallback`
abbrev pub or_fallback : Text → Text → Text
or_fallback [] fallback = fallback
or_fallback (c ∷ cs) fallback = c ∷ cs

-- The loop of `resourceAttribute` over the items that are left.
pub attribute_in : List Text → (name fallback : Text) → Text
attribute_in [] name fallback = fallback
attribute_in (item ∷ items) name fallback =
    let later = attribute_in items name fallback in
    elim (split b'=' item) [
      | [] ↦ later
      | key ∷ value_parts ↦
          if text_eq (trim key) name
          then or_fallback (trim (join b'=' value_parts)) fallback
          else later
    ]

-- `resourceAttribute`, of `process.env.OTEL_RESOURCE_ATTRIBUTES`
pub resource_attribute : (attributes : Option Text) → (name fallback : Text) → Text
unfolding attribute_in
resource_attribute attributes name fallback =
    attribute_in (split b',' (or_else attributes [])) name fallback

-- What `register` reads of its surroundings. `loads` says whether the packages can be loaded and
-- set up; `has_node` is `process.versions?.node`.
pub record Environment : Type 0 where
  pub has_window : Bool
  pub has_node : Bool
  pub node_env : Option String
  pub log_level : Option String
  pub service_name : Option String
  pub endpoint : Option String
  pub resource_attributes : Option Text
  pub loads : Bool

-- The provider of traces that is registered.
pub record Registration : Type 0 where
  pub service_name : String
  pub service_version : String
  pub service_namespace : Text
  pub deployment_environment : Text
  pub exporter_url : String
  pub console_exporter : Bool

abbrev is : Option String → String → Bool
is none s = false
is (some t) s = str_eq t s

-- `register`: nothing in a browser, without Node.js, in a build for production that names no service,
-- or where the packages fail, which is caught.
pub register : Environment → Option Registration
unfolding resource_attribute
register e =
    if e.has_window
      || (not e.has_node
          || ((is e.node_env "production" && not (is_some (nonempty e.service_name)))
              || not e.loads))
    then none
    else some (record {
      service_name = or_else (nonempty e.service_name) "frontend";
      service_version = "1.0.0";
      service_namespace =
          resource_attribute e.resource_attributes (codes "service.namespace")
            (codes "banking-app");
      deployment_environment =
          resource_attribute e.resource_attributes (codes "deployment.environment") (codes "decoy");
      exporter_url = or_else (nonempty e.endpoint) "http://localhost:4318/v1/traces";
      console_exporter = is e.log_level "DEBUG";
    })
