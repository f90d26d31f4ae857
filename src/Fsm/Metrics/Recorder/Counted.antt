-- ===== src/Fsm/Metrics/Recorder/Counted.antt =====
-- A piece of work that was begun and that succeeds is counted.
use achilles_sdk.GoMap
use achilles_sdk.GoMap.Laws.{lookup-insert_self}
use achilles_sdk.Api.{Env, Gvk, ObjectKey, gvk_eq}
use achilles_sdk.Fsm.Types.Options.{is_metric_disabled, achilles_processing_duration}
use achilles_sdk.Fsm.Metrics.BTree.{BTree, find}
use achilles_sdk.Fsm.Metrics.Prometheus.{MetricVecs}
use achilles_sdk.Fsm.Metrics.StartTimes.{
  key, RequestStartTime, appended_items, asked_for, before, get_range, set,
}
use achilles_sdk.Fsm.Metrics.StartTimes.Keys.{IsPlain}
use achilles_sdk.Fsm.Metrics.StartTimes.Ranges.{appended_times-map, find-appended}
use achilles_sdk.Fsm.Metrics.StartTimes.Laws.{IsPlainTree, get-set, visited-InReach}
use achilles_sdk.Fsm.Metrics.Sink.{Sink}
use achilles_sdk.Fsm.Metrics.Recorder.{Metrics, record_processing_duration, record_processing_start}
use achilles_sdk.Fsm.Metrics.Recorder.Laws.{observed, observes_each_start}
use achilles_sdk.Prelude.{
  List, Option-cases, String, [], ap, arith, eq_refl, false, inl, inr, is_some, length, less_irrefl,
  map, nat_eq, some, string_eq, true, ℕ, ◌<◌, ◌∙◌, ◌∷◌, ◌≡◌, ◌≤◌,
}

-- A list in which an item is found is not empty.
found_times :
    (j : RequestStartTime) (xs : List RequestStartTime)
    → is_some (find before j xs) ≡ true
    → 1 ≤ length (map (λ r. r.time) xs)
found_times j [] found = ground arith
found_times j (x ∷ xs) found = omega arith

module _ (env : Env) (p : MetricVecs) (b : BTree before) where
  set-IsPlainTree :
      (name namespace : String) (g time : ℕ) (t : b.Tree)
      → IsPlain (asked_for name namespace g)
      → IsPlainTree b t
      → IsPlainTree b (set b name namespace g time t)
  set-IsPlainTree name namespace g time t plain_k plain_t j x e =
      ground (arith, get-set b j name namespace g time t, plain_t j x, plain_k, e)

  get-set_self :
      (name namespace : String) (g time : ℕ) (t : b.Tree)
      → is_some (b.get (asked_for name namespace g) (set b name namespace g time t)) ≡ true
  unfolding before
  get-set_self name namespace g time t =
      let k = asked_for name namespace g in
      elim (Option-cases (b.get k t)) [
        | inl e ↦ ground (arith, e, get-set b k name namespace g time t, less_irrefl (key k))
        | inr (x, e) ↦ ground (arith, e, get-set b k name namespace g time t, less_irrefl (key k))
      ]

  -- Set leaves something for GetRange.
  get_range-set :
      (name namespace : String) (g time : ℕ) (t : b.Tree)
      → IsPlain (asked_for name namespace g)
      → IsPlainTree b t
      → 1 ≤ length (get_range b name namespace g true (set b name namespace g time t))
  unfolding get_range before
  get_range-set name namespace g time t plain_k plain_t =
      let k = asked_for name namespace g in
      let t' = set b name namespace g time t in
      let xs = b.descend_less_or_equal k t' in
      let found =
        find-appended k k xs plain_k plain_k (b.visited_descend k t')
          (visited-InReach b k t' (set-IsPlainTree name namespace g time t plain_k plain_t)) in
      let stored = b.stored_are_visited k k t' in
      omega (
        arith,
        ap length (appended_times-map k xs),
        found_times k (appended_items k xs) (
            ground (
              arith,
              found,
              stored,
              get-set_self name namespace g time t,
              less_irrefl (key k),
              eq_refl name,
              eq_refl namespace,
            )),
      )

  -- Work on an object that was begun and then reported as a success is counted: where durations are
  -- recorded and the type was initialized, the histogram has observed at least one duration more
  -- after RecordProcessingStart and a successful RecordProcessingDuration for the same generation.
  pub success_is_counted :
      (gvk : Gvk) (req : ObjectKey) (gen start now : ℕ) (m : Metrics env p b) (sink : Sink p)
      (tree : b.Tree)
      → IsPlain (asked_for req.name req.namespace gen)
      → IsPlainTree b tree
      → m.sink ≡ some sink
      → is_metric_disabled m.options achilles_processing_duration ≡ false
      → GoMap.lookup gvk m.processing_start_times_by_gvk ≡ some tree
      → (after : Sink p) × ((record_processing_duration env p b gvk req gen true now
            (record_processing_start env p b gvk req gen start m).0).0.sink
          ≡ some after)
        × (observed env p b gvk true sink < observed env p b gvk true after)
  unfolding record_processing_start
  success_is_counted gvk req gen start now m sink tree plain_k plain_t e d f =
      let tree' = set b req.name req.namespace gen start tree in
      let begun : Metrics env p b = record m {
        processing_start_times_by_gvk = GoMap.insert gvk tree' m.processing_start_times_by_gvk;
      } in
      let started : (record_processing_start env p b gvk req gen start m).0 ≡ begun =
        simp (d, e, f) in
      let report =
        observes_each_start env p b gvk req gen now true begun sink tree' e d
          (lookup-insert_self gvk tree' m.processing_start_times_by_gvk) in
      (
        report.0,
        ap (λ x. (record_processing_duration env p b gvk req gen true now x).0.sink) started
            ∙ report.1,
        omega
            (arith, report.2, get_range-set req.name req.namespace gen start tree plain_k plain_t),
      )
