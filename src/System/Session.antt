-- ===== src/System/Session.antt =====
-- A whole run of `client_loop` on one connection of `server_loop`.
use spsc.Outside.{Outside}
use spsc.Asgard.{Asgard}
use spsc.Jane.{Jane}
use spsc.System.Ready.{Ready}
