-- ===== src/Kubeconfig.antt =====
-- pkg/kubeconfig: kubeconfigs in Secrets (secret.go) and the errors of reading one (errors.go). The
-- bytes of a value are a text. clientcmd's `Write` and `NewClientConfigFromBytes` are parameters.
pub mod Laws
use achilles_sdk.GoMap
use achilles_sdk.GoMap.{GoMap}
use achilles_sdk.Api.{Error, ObjectKey, Try, err, error_text, ok, wrap}
use achilles_sdk.Prelude.{String, [], concat, none, some, string_eq, ◌∷◌}

abbrev pub kube_config_data_key : String
kube_config_data_key = "kubeconfig"

-- corev1.Secret
pub record Secret : Type 0 where
  pub name : String
  pub namespace : String
  pub data_of : GoMap String String

pub data SecretError : Type 0 where
  key_not_found : ObjectKey → SecretError
  serialized_kubeconfig_invalid : ObjectKey → Error → SecretError

-- The method `Error`; `quote` is `%q`.
unfoldable pub secret_error_text : (String → String) → (ObjectKey → String) → SecretError → String
secret_error_text quote quote_key (key_not_found k) =
    concat ("missing key " ∷ quote kube_config_data_key ∷ " in data for Secret " ∷ quote_key k ∷ [])
secret_error_text quote quote_key (serialized_kubeconfig_invalid k e) =
    error_text (wrap "building client config from serialized config" e)

-- A client config, or why there is none.
pub data Read (ClientConfig : Type 0) : Type 0 where
  config : ClientConfig → Read ClientConfig
  failed : SecretError → Read ClientConfig

unfoldable pub secret_key : Secret → ObjectKey
secret_key s = record { name = s.name; namespace = s.namespace }

unfoldable pub kube_config_to_secret :
    {Config : Type 0} → (Config → Try String) → ObjectKey → Config → Try Secret
kube_config_to_secret write obj_key cfg = elim (write cfg) [
  | err e ↦ err (wrap "serializing kubeconfig to yaml" e)
  | ok out ↦ ok (record {
    name = obj_key.name;
    namespace = obj_key.namespace;
    data_of = (kube_config_data_key, out) ∷ [];
  })
]

module _ {ClientConfig : Type 0} (parse : String → Try ClientConfig) where
  unfoldable pub secret_to_kube_config_by_key : Secret → String → Read ClientConfig
  unfolding secret_key
  secret_to_kube_config_by_key secret key = elim (GoMap.lookup key secret.data_of) [
    | none ↦ failed (key_not_found (secret_key secret))
    | some bytes ↦ elim (parse bytes) [
      | err e ↦ failed (serialized_kubeconfig_invalid (secret_key secret) e)
      | ok cfg ↦ config cfg
    ]
  ]

  unfoldable pub secret_to_kube_config : Secret → Read ClientConfig
  unfolding secret_to_kube_config_by_key
  secret_to_kube_config secret = secret_to_kube_config_by_key secret kube_config_data_key
