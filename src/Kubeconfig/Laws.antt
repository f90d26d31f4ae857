-- ===== src/Kubeconfig/Laws.antt =====
-- A kubeconfig that is put into a Secret and read again (pkg/kubeconfig/secret.go).
use achilles_sdk.GoMap
use achilles_sdk.Api.{ObjectKey, Try, err, ok}
use achilles_sdk.Kubeconfig.{
  Read, Secret, config, failed, key_not_found, kube_config_data_key, kube_config_to_secret,
  secret_key, secret_to_kube_config, secret_to_kube_config_by_key, serialized_kubeconfig_invalid,
}
use achilles_sdk.Prelude.{String, [], arith, eq_iff, refl, string_eq, ◌∷◌, ◌≡◌, ◌≢◌}

-- What reading a text comes to, for the Secret of this key.
abbrev pub read_text : {ClientConfig : Type 0} → ObjectKey → Try ClientConfig → Read ClientConfig
read_text key (ok cfg) = config cfg
read_text key (err e) = failed (serialized_kubeconfig_invalid key e)

module _ {Config ClientConfig : Type 0} (write : Config → Try String)
    (parse : String → Try ClientConfig) where
  -- A config that can be serialized makes a Secret under the key that is asked for, and reading
  -- that Secret parses the text that the config was serialized to: it gives the config parsed, or
  -- the parser's error with the Secret's key. Reading it by any other key of its data fails with
  -- the error for a missing key.
  pub secret_to_kube_config-kube_config_to_secret :
      (key : ObjectKey) (cfg : Config) (text other : String)
      → write cfg ≡ ok text
      → other ≢ kube_config_data_key
      → (secret : Secret) × (kube_config_to_secret write key cfg ≡ ok secret)
        × (secret_key secret ≡ key)
        × (secret_to_kube_config parse secret ≡ read_text key (parse text))
        × (secret_to_kube_config_by_key parse secret other ≡ failed (key_not_found key))
  unfolding kube_config_to_secret secret_to_kube_config GoMap.lookup
  secret_to_kube_config-kube_config_to_secret key cfg text other written differs = (
    record {
      name = key.name;
      namespace = key.namespace;
      data_of = (kube_config_data_key, text) ∷ [];
    },
    ground arith,
    refl,
    ground arith,
    ground (arith, eq_iff kube_config_data_key other),
  )
