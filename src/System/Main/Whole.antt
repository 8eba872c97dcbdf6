-- ===== src/System/Main/Whole.antt =====
-- The two programs from the start to the end: `main` of jane.c on one connection of `main` of thor.c.
use spsc.Outside.{Outside}
use spsc.Jane.{Jane}
use spsc.Jane.Start as Producer
use spsc.Thor.{Thor}
use spsc.Thor.Start as Consumer
