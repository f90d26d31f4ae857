-- ===== src/Fsm/Metrics.antt =====
-- pkg/fsm/metrics: what an FSM controller reports to Prometheus.
pub mod BTree
pub mod StartTimes
pub mod Prometheus
pub mod Labels
pub mod Sink
pub mod Recorder
