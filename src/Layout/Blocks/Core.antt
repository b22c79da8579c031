-- ===== src/Layout/Blocks/Core.antt =====
-- Register structures of ls-common/dcsr_core_ls1.h, ls-common/dcsr_etm_ls1.h.
use ls_dbg.Prelude.{◌-◌, ◌*◌, List, [], ◌∷◌}
use ls_dbg.Layout.{Field, u32, u32s, reserved}

-- `struct core_pmu_struct`
abbrev pub core_pmu_struct_fields : List Field
core_pmu_struct_fields =
    reserved (0x1000)
    ∷ u32s "pmxevcntr" 4
    ∷ reserved (0x7B - 0xF)
    ∷ u32 "pmccntr"
    ∷ reserved (0x3FF - 0x7F)
    ∷ u32s "pmxevtyper" 4
    ∷ reserved (0x47B - 0x40F)
    ∷ u32 "pmxevtyper31"
    ∷ reserved (0xBFF - 0x47F)
    ∷ u32 "pmctenset"
    ∷ reserved (0xC1F - 0xC03)
    ∷ u32 "pmcntenclr"
    ∷ reserved (0xC3F - 0xC23)
    ∷ u32 "pmintenset"
    ∷ reserved (0xC5F - 0xC43)
    ∷ u32 "pmintenclr"
    ∷ reserved (0xC7F - 0xC63)
    ∷ u32 "pmovsr"
    ∷ reserved (0xC9F - 0xC83)
    ∷ u32 "pmswinc"
    ∷ reserved (0xDFF - 0xCA3)
    ∷ u32 "pmcfgr"
    ∷ u32 "pmcr"
    ∷ u32 "pmuserenr"
    ∷ reserved (0xE1F - 0xE0B)
    ∷ u32s "pmceid" 2
    ∷ reserved (0xFAF - 0xE27)
    ∷ u32 "pmlar"
    ∷ u32 "pmlsr"
    ∷ u32 "pmauthstatus"
    ∷ reserved (0xFCB - 0xFBB)
    ∷ u32 "pmdevtype"
    ∷ u32 "pmpid4"
    ∷ u32 "pmpid5"
    ∷ u32 "pmpid6"
    ∷ u32 "pmpid7"
    ∷ u32 "pmpid0"
    ∷ u32 "pmpid1"
    ∷ u32 "pmpid2"
    ∷ u32 "pmpid3"
    ∷ u32s "pmcid" 4
    ∷ []

-- `struct etm`
abbrev pub etm_fields : List Field
etm_fields =
    u32 "etmcr"
    ∷ u32 "etmccr"
    ∷ u32 "etmtrigger"
    ∷ u32 "etmasicctlr"
    ∷ u32 "etmsr"
    ∷ u32 "etmscr"
    ∷ u32 "etmtsscr"
    ∷ u32 "etmtecr2"
    ∷ u32 "etmteevr"
    ∷ u32 "etmtecr1"
    ∷ reserved (4 * (0x00b - 0x009 - 1))
    ∷ u32 "etmfflr"
    ∷ u32 "etmvdevr"
    ∷ u32 "etmvdcr1"
    ∷ reserved (4 * (0x00F - 0x00D - 1))
    ∷ u32 "etmvdcr3"
    ∷ u32s "etmacvr" 8
    ∷ reserved (4 * (0x020 - 0x017 - 1))
    ∷ u32s "etmactr" 8
    ∷ reserved (4 * (0x030 - 0x027 - 1))
    ∷ u32 "etmdcvr1"
    ∷ reserved (4 * (0x032 - 0x030 - 1))
    ∷ u32 "etmdcvr3"
    ∷ reserved (4 * (0x040 - 0x032 - 1))
    ∷ u32 "etmdcmr1"
    ∷ reserved (4 * (0x042 - 0x040 - 1))
    ∷ u32 "etmdcmr3"
    ∷ reserved (4 * (0x050 - 0x042 - 1))
    ∷ u32s "etmcntrldvr" 2
    ∷ reserved (4 * (0x054 - 0x051 - 1))
    ∷ u32s "etmcntenr" 2
    ∷ reserved (4 * (0x058 - 0x055 - 1))
    ∷ u32s "etmcntrldevr" 2
    ∷ reserved (4 * (0x05C - 0x059 - 1))
    ∷ u32s "etmcntvr" 2
    ∷ reserved (4 * (0x060 - 0x05D - 1))
    ∷ u32s "etmsqabevr" 6
    ∷ reserved (4 * (0x067 - 0x065 - 1))
    ∷ u32 "etmsqr"
    ∷ u32s "etmextoutevr" 2
    ∷ reserved (4 * (0x06C - 0x069 - 1))
    ∷ u32 "etmcidcvr1"
    ∷ reserved (4 * (0x06F - 0x06C - 1))
    ∷ u32 "etmcidcmr"
    ∷ reserved (4 * (0x078 - 0x06F - 1))
    ∷ u32 "etmsyncfr"
    ∷ u32 "etmidr"
    ∷ u32 "etmccer"
    ∷ u32 "etmextinselr"
    ∷ reserved (4 * (0x07E - 0x07B - 1))
    ∷ u32 "etmtsevr"
    ∷ u32 "etmauxcr"
    ∷ u32 "etmtraceidr"
    ∷ reserved (4 * (0x082 - 0x080 - 1))
    ∷ u32 "etmidr2"
    ∷ reserved (4 * (0x090 - 0x082 - 1))
    ∷ u32 "etmvmidcvr"
    ∷ reserved (4 * (0x0C0 - 0x090 - 1))
    ∷ u32 "etmoslar"
    ∷ u32 "etmoslsr"
    ∷ u32 "etmossrr"
    ∷ reserved (4 * (0x0C4 - 0x0C2 - 1))
    ∷ u32 "etmpdcr"
    ∷ u32 "etmpdsr"
    ∷ reserved (4 * (0x3B7 - 0x0C5 - 1))
    ∷ u32 "itmiscout"
    ∷ u32 "itmiscin"
    ∷ reserved (4 * (0x3BA - 0x3B8 - 1))
    ∷ u32 "ittriggerreq"
    ∷ u32 "itatbdata0"
    ∷ u32 "itatbctr2"
    ∷ u32 "itatbctr1"
    ∷ u32 "itatbctr0"
    ∷ reserved (4 * (0x3C0 - 0x3BE - 1))
    ∷ u32 "etmitctrl"
    ∷ reserved (4 * (0x3E8 - 0x3C0 - 1))
    ∷ u32 "etmclaimset"
    ∷ u32 "etmclaimclr"
    ∷ reserved (4 * (0x3EC - 0x3E9 - 1))
    ∷ u32 "etmlar"
    ∷ u32 "etmlsr"
    ∷ u32 "etmauthstatus"
    ∷ reserved (4 * (0x3F2 - 0x3EE - 1))
    ∷ u32 "etmdevid"
    ∷ u32 "etmdevtype"
    ∷ u32 "etmpidr4"
    ∷ u32 "etmpidr5"
    ∷ u32 "etmpidr6"
    ∷ u32 "etmpidr7"
    ∷ u32 "etmpidr0"
    ∷ u32 "etmpidr1"
    ∷ u32 "etmpidr2"
    ∷ u32 "etmpidr3"
    ∷ u32s "etmcidr" 4
    ∷ []
