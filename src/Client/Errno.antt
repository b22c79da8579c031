-- ===== src/Client/Errno.antt =====
-- What the test of reservations makes of an `errno` that is set before it, test/test_ls_dbg.c.
use ls_dbg.Kernel.{Kernel}
