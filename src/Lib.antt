-- ===== src/Lib.antt =====
-- ls-dbg: the debug driver of Layerscape LS1021A, as a library of definitions and theorems.
--
-- The driver maps the register blocks of the chip's debug devices, shows their registers in debugfs,
-- lets programs read, write and reserve them through the character device /dev/ls-dbg, and extends
-- the 32 hardware counters of the EPU to 64 bits by counting their overflows in memory.
--
-- The parts, and the files that model them:
--   Kernel           The services of Linux that the driver calls, as the parameter `Kernel W`; the
--                    driver's own data, `Machine W`; the monad `Driver W` of its functions. `W` is
--                    the world outside the driver.
--   TraceIp          Ids and constants (ls-common/ls_dbg.h, ls-dbg/module/vir_cntrs.h).
--   RegAccess        The map table and physical registers (ls-dbg/module/reg_access.c).
--   Reservation      `resource_reserve` (ls-dbg/module/reg_access.c). `Reservation.Spec` says what it
--                    promises: a set of taken indices for each group.
--   Ioctl            Reads and writes of physical and virtual registers by ioctl
--                    (ls-dbg/module/reg_access.c, ls-dbg/module/vir_cntrs.c).
--   Vcounters        The counters and their interrupt handler (ls-dbg/module/vir_cntrs.c).
--   Capture          `vcntepecr_set` and `vcntepecr_get` (ls-dbg/module/vir_cntrs.c).
--   ShiftLoop        The loop over a word's bits, which the three loops of the counters share.
--   Fine             Functions that end and leave the tables and locks as they found them.
--   Irq              The control register, and the interrupt's binding (ls-dbg/module/vir_cntrs.c).
--   VcountersInit    `vcounters_init` (ls-dbg/module/vir_cntrs.c).
--   Layout           The register structures (ls-common/dcsr_*.h).
--   Debugfs          The register files (ls-dbg/module/dcsr_*.c, ls-dbg/module/dbg_private.h).
--   System           All calls to a loaded driver in any order, with interrupt handlers of several
--                    processors interleaved.
--   Probe            The device list, probe and remove (ls-dbg/module/ls_dbg.c). `Probe.Balance` and
--                    `Probe.Leaks` count what the kernel has given.
--   Module           Loading and unloading the module, with the platform bus as the parameter
--                    `Bus W` (ls-dbg/module/ls_dbg.c). `Module.Load` goes on to the driver in use.
--   Client           The test program, run on the model of the driver (test/test_ls_dbg.c): its
--                    wrappers of `ioctl` and its tests. `Client.Run` is the loop over them, which
--                    loads and removes the module around each, with the shell's commands and the
--                    calls on the device's file as the parameter `Shell W`.
--   Bits, Memory, Prelude   Words, byte-addressed memory, shared names.
--   Tests            The theorems at concrete inputs, on a small board.
--
-- How state and operations correspond: a function of the source is a definition of the same name
-- that takes the machine and gives its outcome with the machine afterwards. An outcome is a value
-- (status 0), an error code, or `hang`, when a lock that nobody gives back is waited for. A
-- structure in memory that is accessed by pointer, `ls_dbg_vcnt`, is bytes at an address; every
-- wrap-around of a word is written out. A negative code is its 32-bit pattern.
--
-- The interrupt handler, captures and ioctl calls meet in the map table, in `ls_dbg_vcnt` under
-- `vc_lock`, and in the EPU's registers. In `System`, they are steps of one machine, in any order;
-- a handler is two steps, the read of the status and the section under the lock, between which
-- other processors run. A section under a lock is a single step, as the lock keeps the others out,
-- and so is each other call. Between steps the world may change at will. `System.Sections` takes the
-- handler's counting under `vc_lock` apart, into the loads and stores of `v_counter_inc` on several
-- processors; the other sections under `vc_lock`, captures and reads of events, it leaves out.
--
-- Fuel: the loops that shift a 32-bit word to 0 have 32 rounds of fuel, as many as the word has
-- bits; running out is the outcome `hang`.
--
-- Not modelled: interleavings within the other calls and within captures, and of loading or removal
-- with them; messages to the log; prototypes and the build files.
pub mod Prelude
pub mod Bits
pub mod Memory
pub mod Kernel
pub mod TraceIp
pub mod RegAccess
pub mod ShiftLoop
pub mod Fine
pub mod Vcounters
pub mod Capture
pub mod Irq
pub mod Reservation
pub mod Ioctl
pub mod Layout
pub mod Debugfs
pub mod VcountersInit
pub mod System
pub mod Probe
pub mod Module
pub mod Client
pub mod Tests
