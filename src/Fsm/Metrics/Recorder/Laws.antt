-- ===== src/Fsm/Metrics/Recorder/Laws.antt =====
-- The durations that RecordProcessingDuration observes.
use achilles_sdk.GoMap
use achilles_sdk.GoMap.{GoMap}
use achilles_sdk.Api.{Env, Gvk, ObjectKey, gvk_eq}
use achilles_sdk.Fsm.Types.Options.{is_metric_disabled, achilles_processing_duration}
use achilles_sdk.Fsm.Metrics.BTree.{BTree}
use achilles_sdk.Fsm.Metrics.Prometheus.{MetricVecs, or_zero, same_texts_refl}
use achilles_sdk.Fsm.Metrics.Labels.{processing_duration_histogram_label_values}
use achilles_sdk.Fsm.Metrics.StartTimes.{before, get_range, delete_range, set_range_failed}
use achilles_sdk.Fsm.Metrics.StartTimes.Laws.{IsPlainTree}
use achilles_sdk.Fsm.Metrics.Sink
use achilles_sdk.Fsm.Metrics.Sink.{Sink, format_bool}
use achilles_sdk.Fsm.Metrics.Recorder.{Metrics, observe_durations, record_processing_duration}
use achilles_sdk.Prelude.{
  Bool, List, String, [], ap, arith, false, if◌then◌else◌, length, nat_eq, refl, some, string_eq, ℕ,
  ◌+◌, ◌-◌, ◌∷◌, ◌≡◌,
}

-- The labels of the durations of a type.
abbrev pub duration_labels : Gvk → Bool → List String
unfolding processing_duration_histogram_label_values
duration_labels gvk success = processing_duration_histogram_label_values (record {
  group = gvk.group;
  version = gvk.version;
  kind = gvk.kind;
  success = format_bool success;
})

module _ (env : Env) (p : MetricVecs) (b : BTree before) where
  -- How many durations a histogram has observed.
  abbrev pub observed : Gvk → Bool → Sink p → ℕ
  observed gvk success sink =
      or_zero (p.series (duration_labels gvk success) sink.processing_duration_histogram)

  observed-observe_durations :
      (gvk : Gvk) (now : ℕ) (success : Bool) (starts : List ℕ) (sink : Sink p)
      → observed gvk success (observe_durations env p b gvk now success starts sink)
        ≡ observed gvk success sink + length starts
  unfolding observe_durations Sink.record_processing_duration
      processing_duration_histogram_label_values
  observed-observe_durations gvk now success [] sink = ground arith
  observed-observe_durations gvk now success (s ∷ starts) sink =
      let labels = duration_labels gvk success in
      ground (
        arith,
        observed-observe_durations gvk now success starts
            (Sink.record_processing_duration p gvk (now - s) success sink),
        p.series-observe labels labels (now - s) sink.processing_duration_histogram refl,
        same_texts_refl labels,
      )

  -- No slash in the names that a type's start times stand for.
  abbrev pub PlainStarts : Gvk → Metrics env p b → Type 0
  PlainStarts gvk m =
      (t : b.Tree) → GoMap.lookup gvk m.processing_start_times_by_gvk ≡ some t → IsPlainTree b t

  -- The start times after a report.
  abbrev reported : ObjectKey → ℕ → Bool → b.Tree → b.Tree
  reported req gen success tree =
      if success
      then delete_range b req.name req.namespace gen tree
      else set_range_failed b req.name req.namespace gen tree

  module _ (gvk : Gvk) (req : ObjectKey) (gen now : ℕ) (success : Bool) where
    -- What RecordProcessingDuration does when the metric is recorded.
    recorded :
        (m : Metrics env p b) (sink : Sink p) (tree : b.Tree)
        → m.sink ≡ some sink
        → is_metric_disabled m.options achilles_processing_duration ≡ false
        → GoMap.lookup gvk m.processing_start_times_by_gvk ≡ some tree
        → (record_processing_duration env p b gvk req gen success now m).0 ≡ record m {
          sink = some (
              observe_durations env p b gvk now success
                (get_range b req.name req.namespace gen success tree)
                sink);
          processing_start_times_by_gvk =
              GoMap.insert gvk (reported req gen success tree) m.processing_start_times_by_gvk;
        }
    unfolding record_processing_duration
    recorded m sink tree e d f = simp (e, d, f)

  -- RecordProcessingDuration observes one duration for each start time that GetRange returns, if
  -- the metric is recorded and the type was initialized.
  pub observes_each_start :
      (gvk : Gvk) (req : ObjectKey) (gen now : ℕ) (success : Bool) (m : Metrics env p b)
      (sink : Sink p) (tree : b.Tree)
      → m.sink ≡ some sink
      → is_metric_disabled m.options achilles_processing_duration ≡ false
      → GoMap.lookup gvk m.processing_start_times_by_gvk ≡ some tree
      → (after : Sink p) × ((record_processing_duration env p b gvk req gen success now m).0.sink
          ≡ some after)
        × (observed gvk success after
            ≡ observed gvk success sink
              + length (get_range b req.name req.namespace gen success tree))
  observes_each_start gvk req gen now success m sink tree e d f =
      let starts = get_range b req.name req.namespace gen success tree in
      (
        observe_durations env p b gvk now success starts sink,
        ap (λ x. x.sink) (recorded gvk req gen now success m sink tree e d f),
        observed-observe_durations gvk now success starts sink,
      )
