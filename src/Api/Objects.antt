-- ===== src/Api/Objects.antt =====
-- The fields of Kubernetes objects that the program reads or writes. Everything else of an object,
-- its spec and its data, is one opaque text, `body`.
use achilles_sdk.GoMap.{GoMap}
use achilles_sdk.Prelude.{
  Bool, Eq, List, Option, String, [], arith, concat, eq_iff, false, none, string_eq, true, ℕ, ◌&&◌,
  ◌==◌, ◌∷◌, ◌↔◌, ◌≡◌,
}

-- schema.GroupVersionKind
pub record Gvk : Type 0 where
  pub group : String
  pub version : String
  pub kind : String

-- `==` on them.
abbrev pub same_gvk : Gvk → Gvk → Bool
same_gvk a b = a.group == b.group && a.version == b.version && a.kind == b.kind

pub same_gvk_iff : (a b : Gvk) → (same_gvk a b ≡ true) ↔ (a ≡ b)
same_gvk_iff a b =
    ground (arith, eq_iff a.group b.group, eq_iff a.version b.version, eq_iff a.kind b.kind)

instance abbrev pub gvk_eq : Eq Gvk
gvk_eq = record { same = same_gvk; same_iff = same_gvk_iff }

-- types.NamespacedName, which is client.ObjectKey
pub record ObjectKey : Type 0 where
  pub namespace : String
  pub name : String

-- api.TypedObjectRef
pub record TypedObjectRef : Type 0 where
  pub group : String
  pub version : String
  pub kind : String
  pub name : String
  pub namespace : String

-- corev1.ConditionStatus
abbrev pub ConditionStatus : Type 0
ConditionStatus = String

abbrev pub status_true : ConditionStatus
status_true = "True"

abbrev pub status_false : ConditionStatus
status_false = "False"

abbrev pub status_unknown : ConditionStatus
status_unknown = "Unknown"

-- api.Condition
pub record Condition : Type 0 where
  pub type : String
  pub status : ConditionStatus
  pub observed_generation : ℕ
  pub last_transition_time : ℕ
  pub reason : String
  pub message : String

-- metav1.OwnerReference
pub record OwnerReference : Type 0 where
  pub owner : TypedObjectRef
  pub controller : Bool

-- client.Object. `gvk` is the group, version and kind that the scheme has for the object's Go
-- type. A timestamp that is nil or zero is `none`. Nil and empty labels are one value.
pub record Object : Type 0 where
  pub gvk : Gvk
  pub name : String
  pub namespace : String
  pub generate_name : String
  pub uid : String
  pub resource_version : String
  pub generation : ℕ
  pub labels : GoMap String String
  pub finalizers : List String
  pub owner_references : List OwnerReference
  pub creation_timestamp : Option ℕ
  pub deletion_timestamp : Option ℕ
  pub managed_fields : List String  -- the subresource of each entry
  pub conditions : List Condition
  pub managed_resources : List TypedObjectRef
  pub claimed_ref : Option TypedObjectRef
  pub claim_ref : Option TypedObjectRef
  pub body : String

-- client.ObjectKeyFromObject
abbrev pub object_key : Object → ObjectKey
object_key o = record { namespace = o.namespace; name = o.name }

-- The methods `GroupVersionKind` and `ObjectKey` of api.TypedObjectRef.
abbrev pub ref_gvk : TypedObjectRef → Gvk
ref_gvk r = record { group = r.group; version = r.version; kind = r.kind }

abbrev pub ref_key : TypedObjectRef → ObjectKey
ref_key r = record { namespace = r.namespace; name = r.name }

-- A new object of a type: Go's zero value, with the type's group, version and kind.
abbrev pub empty_object : Gvk → Object
empty_object g = record {
  gvk = g;
  name = "";
  namespace = "";
  generate_name = "";
  uid = "";
  resource_version = "";
  generation = 0;
  labels = [];
  finalizers = [];
  owner_references = [];
  creation_timestamp = none;
  deletion_timestamp = none;
  managed_fields = [];
  conditions = [];
  managed_resources = [];
  claimed_ref = none;
  claim_ref = none;
  body = "";
}

-- Go's errors. `status` is what the API server answers, with its reason. `wrap` is `fmt.Errorf`
-- with `%w`; the names and types that it formats beside the error are left out of the texts.
pub data Error : Type 0 where
  status : String → Error
  resource_version_missing : Error
  re_entered_state : String → Error
  plain : String → Error
  wrap : String → Error → Error

-- `err.Error()`
unfoldable pub error_text : Error → String
error_text (status reason) = reason
error_text resource_version_missing = "cannot use optimistic lock, object missing resource version"
error_text (re_entered_state name) = concat ("re-entered state " ∷ name ∷ [])
error_text (plain text) = text
error_text (wrap text e) = concat (text ∷ ": " ∷ error_text e ∷ [])

-- `errors.Is(err, ResourceVersionMissing{})`
unfoldable pub is_resource_version_missing : Error → Bool
is_resource_version_missing (status reason) = false
is_resource_version_missing resource_version_missing = true
is_resource_version_missing (re_entered_state name) = false
is_resource_version_missing (plain text) = false
is_resource_version_missing (wrap text e) = is_resource_version_missing e

-- What a call returns: a value, or an error.
pub data Try {ℓ} (A : Type ℓ) : Type ℓ where
  ok : A → Try A
  err : Error → Try A
