-- ===== src/Lib.antt =====
-- A model of the controller that scales TiFlash compute nodes: autoscale/*.go.
--
-- The controller keeps a pool of free pods and hands them out to tenants. Kubernetes tells it of
-- pods (watchPodsLoop), Prometheus of their load (TimeSeriesContainer); a rule decides how many pods
-- a tenant should have, and addPodIntoTenant and removePodFromTenant bring it there, over a grpc
-- call to each pod. DoPodsWarm asks Kubernetes for new pods when the pool is short of them. The HTTP
-- and grpc servers resume a tenant for a TiDB cluster and wait until it has pods.
--
--   Series          timeseries.go: AvgSigma (Series.Stats), SimpleTimeSeries (Series.Window), and
--                   TimeSeriesContainer (Series.Container)
--   Config          config.go, and the settings at the top of meta.go
--   Pod, Tenant     meta.go: PodDesc and TenantDesc
--   Pool            meta.go: PrewarmPool
--   Meta            meta.go: AutoScaleMeta, pods and tenants; Meta.Good is its invariant, and
--                   Meta.Mock has the tenants of the fixed pool and of tests
--   Resize          meta.go: AsyncPause, AsyncResume, ResizePodsOfTenant, addPodIntoTenant,
--                   removePodFromTenant and HandleUnassingCase; all that changes the meta data, as
--                   steps (Resize.Steps); the states of a tenant as a machine (Resize.Machine)
--   Statistics      meta.go: ComputeStatisticsOfTenant
--   ScaleRule       scale_rule.go
--   Analyze         cluster.go: a round of analyzeTaskLoop
--   Tasks           cluster.go: a round of manageAnalyzeTasks
--   Metrics         timeseries.go: what PromClient makes of the answers of Prometheus; cluster.go: a
--                   round of collectMetricsLoop
--   Server          http_server.go and rpc_server.go: the requests that resume and pause a tenant and
--                   read its state; cluster.go: Resume
--   Cluster         cluster.go: addNewPods and removePods; meta.go: DoPodsWarm
--   Bootstrap       cluster.go: initK8sComponents, up to where it has a CloneSet
--   Watch           cluster.go: watchPodsLoop and loadPods; meta.go: ApiGetCurrentTenantAndCorrect
--   Startup         meta.go: ScanStateOfPods and SortPodsAtStartUp
--   Dict, Float     Go's maps with string keys, and float64 as a parameter
--   Prelude         what every module uses: Go's integers, lists, tests
--   Samples         sample data and a sample run, and the theorems at them
--
-- A function of a module has the name of the Go function, in small letters with underscores. Pods
-- are shared by maps, lists and running calls, so they stand on a heap (Pod.PodHeap) and are
-- numbers; a tenant's descriptor is never replaced, so it is a value under its name, and the pool's
-- has the empty name. Each section that holds a mutex is one step; between two sections of a call
-- that waits for pods there can be any number of other steps. ApiGetCurrentTenantAndCorrect is three
-- steps, since its tests hold no mutex of the meta data: it asks the pod, it reads what the pod names,
-- and it writes the correction. DoPodsWarm and TryToRemoveExpriedPod are taken as one step each, though
-- the code lets go of the mutex inside them, and so is a round of collectMetricsLoop or
-- manageAnalyzeTasks. A round of analyzeTaskLoop waits for the calls that it makes; what goes on until
-- such a call has returned, the call itself included, is an argument. Panics are none, or the
-- constructor panics.
--
-- int and int64 are integers without bounds: the counts and the Unix times of the program are far
-- from 2^63. An int32 wraps around (Prelude.Words). The order of a list stands for the order in
-- which Go visits a map. The clock, the answers of pods, of Prometheus and of the Kubernetes API are
-- arguments, and so is what the rest of the program does while a request waits. Recursion is on
-- lists and on the number of retries. Only the two loops of the servers run on fuel: with a sleep of
-- a tenth of a second in each turn, 151 turns are enough for the 15 seconds of the one, and 611 for
-- the 60 of the other.
--
-- The steps assume that Kubernetes does not use a pod's name again, that tenants have names, that the
-- pod of a correction has an address, and that the sort at start-up comes while no call is running. A
-- step is undisturbed (Resize.Steps.Undisturbed) unless it writes a correction of a pod that a running
-- call has taken since the pod was asked. The code does not exclude that one. A configuration that is shared may change at any time (the step conf_changes), as far as
-- the descriptor's reference to it goes.
-- The list that loadPods gives is the same as a series of events.
--
-- Not modelled: the requests to Prometheus, to pods and to AWS and their transport, metrics and logs;
-- the proxy of metrics; the loops of ClusterManager around their rounds; the fixed pool that another
-- controller keeps.
pub mod Analyze
pub mod Prelude
pub mod Dict
pub mod Float
pub mod Series
pub mod Config
pub mod Pod
pub mod Tenant
pub mod Pool
pub mod Meta
pub mod Statistics
pub mod ScaleRule
pub mod Cluster
pub mod Watch
pub mod Resize
pub mod Metrics
pub mod Server
pub mod Samples
pub mod Startup
pub mod Tasks
pub mod Bootstrap
