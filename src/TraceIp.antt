-- ===== src/TraceIp.antt =====
-- The ids of ls-common/ls_dbg.h and the constants of ls-dbg/module/vir_cntrs.h and
-- ls-common/dcsr_epu_v2.h. An id or offset is the number that the C enumerator or macro stands for.
use ls_dbg.Prelude.{ℕ, ◌+◌, Bool, ◌&&◌, leb, ltb}

-- `enum TRACEIP_MODULE`
abbrev pub etm0 : ℕ
etm0 = 0

abbrev pub etm1 : ℕ
etm1 = 1

abbrev pub etr : ℕ
etr = 2

abbrev pub etf0 : ℕ
etf0 = 3

abbrev pub etf1 : ℕ
etf1 = 4

abbrev pub cstf0 : ℕ
cstf0 = 5

abbrev pub cstf1 : ℕ
cstf1 = 6

abbrev pub epu : ℕ
epu = 7

abbrev pub gdi : ℕ
gdi = 8

abbrev pub core : ℕ
core = 9

abbrev pub num_io_ids : ℕ
num_io_ids = core + 1

abbrev pub vcount : ℕ
vcount = num_io_ids

abbrev pub num_ids : ℕ
num_ids = vcount + 1

-- `IS_IO_MAPPED_MODULE` of ls-common/reg_access_ioctl.h
abbrev pub is_io_mapped_module : ℕ → Bool
is_io_mapped_module id = leb etm0 id && ltb id num_io_ids

abbrev pub no_of_counters : ℕ
no_of_counters = 32

abbrev pub no_of_scu_events : ℕ
no_of_scu_events = 16

abbrev pub no_of_counter_groups : ℕ
no_of_counter_groups = 4

abbrev pub no_resrv_regs : ℕ
no_resrv_regs = 60

-- Register offsets in the EPU
abbrev pub epctrisr_offset : ℕ
epctrisr_offset = 0x030

abbrev pub epecr_offset : ℕ
epecr_offset = 0x300

abbrev pub epgacr_offset : ℕ
epgacr_offset = 0x480

abbrev pub epctrgcr_offset : ℕ
epctrgcr_offset = 0x540

abbrev pub epccr_offset : ℕ
epccr_offset = 0x800

abbrev pub epctr_offset : ℕ
epctr_offset = 0x0A00

abbrev pub epcapr_offset : ℕ
epcapr_offset = 0xB00
