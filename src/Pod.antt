-- ===== src/Pod.antt =====
-- autoscale/meta.go: PodDesc. Maps, lists and running calls share these objects, so they stand on
-- a heap, and a pointer is the number of a cell. Whether a TryLock of muOfGrpc succeeds is an
-- argument of the code that tries.
use tiflash_autoscale.Prelude.{ℕ, ℤ, ◌==◌, String, Bool, if◌then◌else◌}

pub record PodDesc : Type 0 where
  pub name : String
  pub ip : String
  pub tenant_name : String
  pub start_time_of_assign : ℤ
  pub is_state_changing : Bool

abbrev pub PodHeap : Type 0
PodHeap = ℕ → PodDesc

abbrev pub update : PodHeap → ℕ → PodDesc → PodHeap
update h p d q = if p == q then d else h q

unfoldable pub set_tenant_info_and_stime_of_assign : String → ℤ → ℕ → PodHeap → PodHeap
set_tenant_info_and_stime_of_assign tenant stime p h =
    update h p (record (h p) { tenant_name = tenant; start_time_of_assign = stime })

unfoldable pub set_tenant_info : String → ℕ → PodHeap → PodHeap
set_tenant_info tenant p h = update h p (record (h p) { tenant_name = tenant })

-- `now` is the clock's reading, in seconds.
unfoldable pub clear_tenant_info : ℤ → ℕ → PodHeap → PodHeap
clear_tenant_info now p h =
    update h p (record (h p) { tenant_name = ""; start_time_of_assign = now })
