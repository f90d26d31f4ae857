-- ===== src/Meta/Labels.antt =====
-- What `SetRedditLabels` and `HasSuspendLabel` of pkg/meta/labels.go do to an object's labels.
use achilles_sdk.GoMap
use achilles_sdk.GoMap.Laws.{lookup-insert}
use achilles_sdk.Api.{Object}
use achilles_sdk.Meta.{
  suspend_key, Application, application_name_key, application_version_key, component_name_key,
  has_suspend_label, managed_by_key, set_reddit_labels,
}
use achilles_sdk.Prelude.{Option, String, if◌then◌else◌, some, string_eq, ◌==◌, ◌≡◌}

abbrev label : Object → String → Option String
label o k = GoMap.lookup k o.labels

module _ (app : Application) (o : Object) (name : String) where
  label-set_reddit_labels :
      (k : String)
      → label (set_reddit_labels app o name) k ≡ (
          if managed_by_key == k
          then some name
          else if component_name_key == k
          then some app.component_name
          else if application_version_key == k
          then some app.application_version
          else if application_name_key == k
          then some app.application_name
          else label o k)
  unfolding set_reddit_labels
  label-set_reddit_labels k = simp lookup-insert

  -- `SetRedditLabels` leaves the suspend label as it was.
  pub has_suspend_label-set_reddit_labels :
      has_suspend_label (set_reddit_labels app o name) ≡ has_suspend_label o
  unfolding has_suspend_label
  has_suspend_label-set_reddit_labels = rw (label-set_reddit_labels suspend_key, has_suspend_label)
