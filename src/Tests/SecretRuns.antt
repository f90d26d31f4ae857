-- ===== src/Tests/SecretRuns.antt =====
-- Runs of pkg/kubeconfig, where a config is the text that it is serialized to, and of pkg/manifest,
-- where an object is a text.
use achilles_sdk.Api.{ObjectKey, Try, err, ok, plain, wrap}
use achilles_sdk.Kubeconfig.{
  Secret, config, failed, key_not_found, kube_config_data_key, kube_config_to_secret, secret_key,
  secret_to_kube_config, secret_to_kube_config_by_key,
}
use achilles_sdk.Kubeconfig.Laws.{secret_to_kube_config-kube_config_to_secret}
use achilles_sdk.Manifest.{
  Document, decode_objects, fetch_objects_from_yaml, item_list, nothing, object,
}
use achilles_sdk.Manifest.Laws.{decode_objects_lem}
use achilles_sdk.Prelude.{
  List, String, [], arith, eq_iff, none, refl, some, string_eq, ◌∷◌, ◌≡◌, ◌≢◌,
}

abbrev key : ObjectKey
key = record { namespace = "ns"; name = "name" }

abbrev same_text : String → Try String
same_text t = ok t

not_the_key : "token" ≢ kube_config_data_key
not_the_key e = ground (arith, eq_iff "token" kube_config_data_key, e)

secret_to_kube_config-kube_config_to_secret_example :
    (secret : Secret) × (kube_config_to_secret same_text key "host" ≡ ok secret)
    × (secret_key secret ≡ key)
    × (secret_to_kube_config same_text secret ≡ config "host")
    × (secret_to_kube_config_by_key same_text secret "token" ≡ failed (key_not_found key))
secret_to_kube_config-kube_config_to_secret_example =
    secret_to_kube_config-kube_config_to_secret same_text same_text key "host" "host" "token" refl
      not_the_key

abbrev documents : List (Try (Document String))
documents =
    ok nothing
    ∷ ok (object "cilium")
    ∷ ok (item_list ("a" ∷ "b" ∷ []) none)
    ∷ err (plain "bad document")
    ∷ ok (object "unread")
    ∷ []

decode_objects_example :
    (decode_objects documents
      ≡ ("cilium" ∷ "a" ∷ "b" ∷ [], some (wrap "decoding object from YAML" (plain "bad document"))))
    × (fetch_objects_from_yaml documents
        ≡ err (wrap "decoding object from YAML" (plain "bad document")))
decode_objects_example = decode_objects_lem documents
