-- ===== src/Tests/ResourceRuns.antt =====
-- Runs of pkg/gvk/getter.go. An object and a list of objects are texts here.
use achilles_sdk.GoMap
use achilles_sdk.GoMap.{GoMap}
use achilles_sdk.Api.{gvk_eq, Gvk, ok}
use achilles_sdk.ResourceGetter.{
  has_suffix, intersects, ApiGroupResources, ApiResource, KnownType, Resource, ResourceGetter, get,
  item_gvk, new_resource_getter, with_groups, with_scope, scope_namespace,
}
use achilles_sdk.ResourceGetter.Laws.{get_lem, has_gvk}
use achilles_sdk.Prelude.{List, String, [], none, refl, some, string_eq, true, ◌∷◌, ◌≡◌}

abbrev namespaced_resource : String → String → ApiResource
namespaced_resource name kind = record {
  name = name;
  kind = kind;
  namespaced = true;
  categories = [];
}

abbrev discovered : List ApiGroupResources
discovered =
    record {
      group = "apps";
      versioned_resources =
          (
            "v1",
            namespaced_resource "deployments" "Deployment"
                ∷ namespaced_resource "deployments/status" "Deployment"
                ∷ [],
          )
          ∷ [];
    }
    ∷ []

abbrev deployment : Gvk
deployment = record { group = "apps"; version = "v1"; kind = "Deployment" }

abbrev deployment_list : Gvk
deployment_list = record { group = "apps"; version = "v1"; kind = "DeploymentList" }

abbrev scheme : GoMap Gvk (KnownType String String)
scheme =
    (deployment, record { object = some "Deployment"; object_list = none })
    ∷ (deployment_list, record { object = none; object_list = some "DeploymentList" })
    ∷ []

abbrev pluralize : String → String
pluralize word = word

abbrev getter : ResourceGetter String String
getter = with_scope scope_namespace (new_resource_getter scheme (ok discovered))

-- The type and the type of its lists make one resource.
abbrev expected : List (Resource String String)
expected =
    record {
      group = "apps";
      version = "v1";
      kind = "Deployment";
      resource = "deployments";
      object = some "Deployment";
      object_list = some "DeploymentList";
    }
    ∷ []

got_deployments : get pluralize getter ≡ ok expected
unfolding get new_resource_getter with_scope GoMap.lookup GoMap.insert
got_deployments = refl

-- Of two resources with one kind, the later has its name in the result.
abbrev shared_kind : List ApiGroupResources
shared_kind =
    record {
      group = "apps";
      versioned_resources =
          (
            "v1",
            namespaced_resource "deployments" "Deployment"
                ∷ namespaced_resource "deployments/rollback" "Deployment"
                ∷ [],
          )
          ∷ [];
    }
    ∷ []

later_name :
    (r : Resource String String) × (rest : List (Resource String String)) × (get pluralize
        (new_resource_getter scheme (ok shared_kind))
      ≡ ok (r ∷ rest))
    × (r.resource ≡ "deployments/rollback")
unfolding get new_resource_getter GoMap.lookup GoMap.insert
later_name = (_, _, refl, refl)

-- Only the group "batch" is asked for.
get_example :
    (resources : List (Resource String String)) × (get pluralize getter ≡ ok resources)
    × (get pluralize (with_groups ("batch" ∷ []) getter) ≡ ok resources)
    × (has_gvk resources deployment ≡ true)
unfolding has_suffix intersects item_gvk new_resource_getter with_scope
get_example = get_lem pluralize getter discovered ("batch" ∷ []) deployment refl
