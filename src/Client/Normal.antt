-- ===== src/Client/Normal.antt =====
-- The test program's test of reservations, which takes and gives back the EPU's counters and compares
-- the reservation register on the way.
use ls_dbg.Kernel.{Kernel}
use ls_dbg.Client.Holding.{Holding}
