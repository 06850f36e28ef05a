-- ===== src/Series.antt =====
-- autoscale/timeseries.go: the metric windows of the pods, without the Prometheus queries.
pub mod Stats
pub mod Window
pub mod Container
