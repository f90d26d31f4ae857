-- ===== src/ResourceGetter.antt =====
-- pkg/gvk/getter.go. The discovery client is what `restmapper.GetAPIGroupResources` makes of it, the
-- scheme is its map of known types, and the types of objects and of lists of them are parameters,
-- like flect's plural of a word. A set of texts is a list, and a nil set is `none`.
pub mod Selection
pub mod Laws
use achilles_sdk.GoMap
use achilles_sdk.GoMap.{GoMap}
use achilles_sdk.Api.{gvk_eq, Gvk, Try, err, ok, wrap}
use achilles_sdk.Prelude.{
  Bool, List, Option, String, [], contains, false, if◌then◌else◌, map, none, not, some, string_eq,
  ◌&&◌, ◌==◌, ◌||◌, ◌∷◌,
}

-- `strings.HasSuffix` and `strings.TrimSuffix`
unfoldable pub has_suffix : String → String → Bool
has_suffix String.[] suffix = "" == suffix
has_suffix (String.◌∷◌ c s) suffix = String.◌∷◌ c s == suffix || has_suffix s suffix

unfoldable pub trim_suffix : String → String → String
trim_suffix String.[] suffix = ""
trim_suffix (String.◌∷◌ c s) suffix =
    let rest = trim_suffix s suffix in if String.◌∷◌ c s == suffix then "" else String.◌∷◌ c rest

-- Whether the intersection of two sets has a member.
unfoldable pub intersects : List String → List String → Bool
intersects [] others = false
intersects (s ∷ set) others = contains others s || intersects set others

-- meta.RESTScopeNameRoot and meta.RESTScopeNameNamespace
abbrev pub scope_root : String
scope_root = "root"

abbrev pub scope_namespace : String
scope_namespace = "namespace"

-- The fields of metav1.APIResource that are read.
pub record ApiResource : Type 0 where
  pub name : String
  pub kind : String
  pub namespaced : Bool
  pub categories : List String

-- restmapper.APIGroupResources
pub record ApiGroupResources : Type 0 where
  pub group : String
  pub versioned_resources : GoMap String (List ApiResource)

pub record FilterOptions : Type 0 where
  pub scope : String
  pub categories : Option (List String)
  pub groups : Option (List String)
  pub versions : Option (List String)

-- The tests before which a resource of the loop is passed over.
unfoldable pub is_skipped : FilterOptions → String → ApiResource → Bool
unfolding has_suffix intersects
is_skipped opts version resource =
    let scope = if resource.namespaced then scope_namespace else scope_root in
    (has_suffix resource.name "/status" || has_suffix resource.name "/scale")
    || elim opts.versions [ none ↦ false | some versions ↦ not (contains versions version) ]
    || (not (opts.scope == "") && not (opts.scope == scope))
    || elim opts.categories [
      | none ↦ false
      | some categories ↦ not (intersects categories resource.categories)
    ]

-- The three loops that fill `selectedResources`.
unfoldable pub select_resources :
    FilterOptions
    → String
    → String
    → List ApiResource
    → GoMap Gvk ApiResource
    → GoMap Gvk ApiResource
unfolding is_skipped
select_resources opts group version [] selected = selected
select_resources opts group version (resource ∷ rest) selected =
    select_resources opts group version rest (
      if is_skipped opts version resource
      then selected
      else GoMap.insert (record { group = group; version = version; kind = resource.kind }) resource
          selected)

unfoldable pub select_versions :
    FilterOptions
    → String
    → GoMap String (List ApiResource)
    → GoMap Gvk ApiResource
    → GoMap Gvk ApiResource
unfolding select_resources
select_versions opts group [] selected = selected
select_versions opts group ((version, resources) ∷ rest) selected =
    select_versions opts group rest (select_resources opts group version resources selected)

unfoldable pub select_groups :
    FilterOptions → List ApiGroupResources → GoMap Gvk ApiResource → GoMap Gvk ApiResource
unfolding select_versions
select_groups opts [] selected = selected
select_groups opts (group ∷ rest) selected =
    select_groups opts rest (select_versions opts group.group group.versioned_resources selected)

-- The kind that a kind ending in "List" is the list of, and any other kind itself.
unfoldable pub item_gvk : Gvk → Gvk
unfolding has_suffix trim_suffix
item_gvk gvk =
    if has_suffix gvk.kind "List" then record gvk { kind = trim_suffix gvk.kind "List" } else gvk

-- The name of the resource, with the plural that flect makes of it for a list.
unfoldable pub resource_name : (String → String) → Bool → ApiResource → String
unfolding trim_suffix
resource_name pluralize is_list_kind api_resource =
    if is_list_kind then pluralize (trim_suffix api_resource.name "lists") else api_resource.name

module _ (Object ObjectList : Type 0) where
  -- A Go type: what `reflect.New(t).Interface()` is as a client.Object and as a client.ObjectList.
  pub record KnownType : Type 0 where
    pub object : Option Object
    pub object_list : Option ObjectList

  pub record Resource : Type 0 where
    pub group : String
    pub version : String
    pub kind : String
    pub resource : String
    pub object : Option Object
    pub object_list : Option ObjectList

  pub record ResourceGetter : Type 0 where
    pub discovery_client : Try (List ApiGroupResources)
    pub scheme : GoMap Gvk KnownType
    pub opts : FilterOptions

module _ {Object ObjectList : Type 0} where
  unfoldable pub new_resource_getter :
      GoMap Gvk (KnownType Object ObjectList)
      → Try (List ApiGroupResources)
      → ResourceGetter Object ObjectList
  new_resource_getter scheme discovery_client = record {
    discovery_client = discovery_client;
    scheme = scheme;
    opts = record { scope = ""; categories = none; groups = none; versions = none };
  }

  unfoldable pub with_categories :
      List String → ResourceGetter Object ObjectList → ResourceGetter Object ObjectList
  with_categories categories r = record r { opts = record r.opts { categories = some categories } }

  unfoldable pub with_scope :
      String → ResourceGetter Object ObjectList → ResourceGetter Object ObjectList
  with_scope scope r = record r { opts = record r.opts { scope = scope } }

  unfoldable pub with_groups :
      List String → ResourceGetter Object ObjectList → ResourceGetter Object ObjectList
  with_groups groups r = record r { opts = record r.opts { groups = some groups } }

  unfoldable pub with_versions :
      List String → ResourceGetter Object ObjectList → ResourceGetter Object ObjectList
  with_versions versions r = record r { opts = record r.opts { versions = some versions } }

  -- The value of a known type, put into the resource of its kind.
  unfoldable pub with_known_type :
      Bool → KnownType Object ObjectList → Resource Object ObjectList → Resource Object ObjectList
  with_known_type is_list_kind t resource =
      if is_list_kind
      then elim t.object_list [
        | none ↦ resource
        | some l ↦ record resource { object_list = some l }
      ]
      else elim t.object [ none ↦ resource | some o ↦ record resource { object = some o } ]

  unfoldable pub new_resource : Gvk → String → Resource Object ObjectList
  new_resource gvk name = record {
    group = gvk.group;
    version = gvk.version;
    kind = gvk.kind;
    resource = name;
    object = none;
    object_list = none;
  }

  module _ (pluralize : String → String) where
    -- The resource that the loop over the known types puts under a type: the one that stands
    -- there or a new one, with the type's value.
    unfoldable pub known_resource :
        Gvk
        → Bool
        → KnownType Object ObjectList
        → ApiResource
        → Option (Resource Object ObjectList)
        → Resource Object ObjectList
    unfolding with_known_type new_resource resource_name
    known_resource gvk is_list_kind t api_resource none =
        with_known_type is_list_kind t
          (new_resource gvk (resource_name pluralize is_list_kind api_resource))
    known_resource gvk is_list_kind t api_resource (some resource) =
        with_known_type is_list_kind t resource

    -- The rest of the loop's body, after the lookup in `selectedResources`.
    unfoldable pub put_known_type :
        Gvk
        → Bool
        → KnownType Object ObjectList
        → Option ApiResource
        → GoMap Gvk (Resource Object ObjectList)
        → GoMap Gvk (Resource Object ObjectList)
    unfolding known_resource
    put_known_type gvk is_list_kind t none resources_by_gvk = resources_by_gvk
    put_known_type gvk is_list_kind t (some api_resource) resources_by_gvk =
        GoMap.insert gvk
          (known_resource gvk is_list_kind t api_resource (GoMap.lookup gvk resources_by_gvk))
          resources_by_gvk

    unfoldable pub add_known_types :
        GoMap Gvk ApiResource
        → GoMap Gvk (KnownType Object ObjectList)
        → GoMap Gvk (Resource Object ObjectList)
        → GoMap Gvk (Resource Object ObjectList)
    unfolding item_gvk has_suffix put_known_type
    add_known_types selected [] resources_by_gvk = resources_by_gvk
    add_known_types selected ((known, t) ∷ rest) resources_by_gvk = add_known_types selected rest (
        put_known_type (item_gvk known) (has_suffix known.kind "List") t
          (GoMap.lookup (item_gvk known) selected) resources_by_gvk)

    -- The rest of Get, after the call of discovery.
    unfoldable pub known_resources :
        FilterOptions
        → GoMap Gvk (KnownType Object ObjectList)
        → Try (List ApiGroupResources)
        → Try (List (Resource Object ObjectList))
    unfolding add_known_types select_groups
    known_resources opts scheme (err e) = err (wrap "getting api group resources" e)
    known_resources opts scheme (ok groups) =
        ok (map (λ entry. entry.1) (add_known_types (select_groups opts groups []) scheme []))

    unfoldable pub get : ResourceGetter Object ObjectList → Try (List (Resource Object ObjectList))
    unfolding known_resources
    get r = known_resources r.opts r.scheme r.discovery_client
