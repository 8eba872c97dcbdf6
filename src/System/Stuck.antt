-- ===== src/System/Stuck.antt =====
-- After a failure of the network the producer sends the same bytes again and again.
use spsc.Outside.{Outside}
use spsc.Asgard.{Asgard}
use spsc.System.Ready.{Ready}
use spsc.System.Failed.{Failed}
