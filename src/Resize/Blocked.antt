-- ===== src/Resize/Blocked.antt =====
-- autoscale/meta.go: AsyncPause, and the calls that come after it.
use tiflash_autoscale.Dict
use tiflash_autoscale.Resize.World.{World}
