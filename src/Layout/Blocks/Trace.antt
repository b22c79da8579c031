-- ===== src/Layout/Blocks/Trace.antt =====
-- Register structures of ls-common/dcsr_funnel.h, ls-common/dcsr_etf_ls1.h, ls-common/dcsr_etr_ls1.h.
use ls_dbg.Prelude.{◌-◌, List, [], ◌∷◌}
use ls_dbg.Layout.{Field, u32, u32s, reserved}

-- `struct funnel`
abbrev pub funnel_fields : List Field
funnel_fields =
    u32 "cr"
    ∷ u32 "pcr"
    ∷ reserved (0xEEC - 0x004 - 4)
    ∷ u32 "itatbdata0"
    ∷ u32 "itatbctr2"
    ∷ u32 "itatbctr1"
    ∷ u32 "itatbctr0"
    ∷ reserved (0xF00 - 0xEF8 - 4)
    ∷ u32 "imcr"
    ∷ reserved (0xFA0 - 0xF00 - 4)
    ∷ u32 "ctsr"
    ∷ u32 "ctcr"
    ∷ reserved (0xFB0 - 0xFA4 - 4)
    ∷ u32 "lar"
    ∷ u32 "lsr"
    ∷ u32 "asr"
    ∷ reserved (0xFC8 - 0xFB8 - 4)
    ∷ u32 "dir"
    ∷ u32 "dtir"
    ∷ u32 "pidr4"
    ∷ u32 "pidr5"
    ∷ u32 "pidr6"
    ∷ u32 "pidr7"
    ∷ u32 "pidr0"
    ∷ u32 "pidr1"
    ∷ u32 "pidr2"
    ∷ u32 "pidr3"
    ∷ u32s "cidr" 4
    ∷ []

-- `struct etf`
abbrev pub etf_fields : List Field
etf_fields =
    reserved (0x004 - 0x000)
    ∷ u32 "rsz"
    ∷ reserved (0x00c - 0x008)
    ∷ u32 "sts"
    ∷ u32 "rrd"
    ∷ u32 "rrp"
    ∷ u32 "rwp"
    ∷ u32 "trg"
    ∷ u32 "ctl"
    ∷ u32 "rwd"
    ∷ u32 "mode"
    ∷ u32 "lbuflevel"
    ∷ u32 "cbuflevel"
    ∷ u32 "bufwm"
    ∷ u32 "rrphi"
    ∷ u32 "rwphi"
    ∷ reserved (0x110 - 0x040)
    ∷ u32 "axictl"
    ∷ reserved (0x118 - 0x114)
    ∷ u32 "dbalo"
    ∷ u32 "dbahi"
    ∷ reserved (0x300 - 0x0120)
    ∷ u32 "ffsr"
    ∷ u32 "ffcr"
    ∷ u32 "pscr"
    ∷ reserved (0xed0 - 0x030c)
    ∷ u32 "itatbmdata0"
    ∷ u32 "itatbmctr2"
    ∷ u32 "itatbmctr1"
    ∷ u32 "itatbmctr0"
    ∷ u32 "itmiscop0"
    ∷ reserved (0xee8 - 0xee4)
    ∷ u32 "ittrflin"
    ∷ u32 "itatbdata0"
    ∷ u32 "itatbctr2"
    ∷ u32 "itatbctr1"
    ∷ u32 "itatbctr0"
    ∷ reserved (0xf00 - 0xefc)
    ∷ u32 "itctrl"
    ∷ reserved (0xfa0 - 0xf04)
    ∷ u32 "claimset"
    ∷ u32 "claimclr"
    ∷ reserved (0xfb0 - 0xfa8)
    ∷ u32 "lar"
    ∷ u32 "lsr"
    ∷ u32 "authstatus"
    ∷ reserved (0xfc8 - 0xfbc)
    ∷ u32 "devid"
    ∷ u32 "devtype"
    ∷ u32 "periphid4"
    ∷ u32 "periphid5"
    ∷ u32 "periphid6"
    ∷ u32 "periphid7"
    ∷ u32 "periphid0"
    ∷ u32 "periphid1"
    ∷ u32 "periphid2"
    ∷ u32 "periphid3"
    ∷ u32 "compid0"
    ∷ u32 "compid1"
    ∷ u32 "compid2"
    ∷ u32 "compid3"
    ∷ []

-- `struct etr`
abbrev pub etr_fields : List Field
etr_fields =
    reserved (0x004 - 0x000)
    ∷ u32 "rsz"
    ∷ reserved (0x00c - 0x008)
    ∷ u32 "sts"
    ∷ u32 "rrd"
    ∷ u32 "rrp"
    ∷ u32 "rwp"
    ∷ u32 "trg"
    ∷ u32 "ctl"
    ∷ u32 "rwd"
    ∷ u32 "mode"
    ∷ u32 "lbuflevel"
    ∷ u32 "cbuflevel"
    ∷ u32 "bufwm"
    ∷ u32 "rrphi"
    ∷ u32 "rwphi"
    ∷ reserved (0x110 - 0x040)
    ∷ u32 "axictl"
    ∷ reserved (0x118 - 0x114)
    ∷ u32 "dbalo"
    ∷ u32 "dbahi"
    ∷ reserved (0x300 - 0x0120)
    ∷ u32 "ffsr"
    ∷ u32 "ffcr"
    ∷ u32 "pscr"
    ∷ reserved (0xed0 - 0x030c)
    ∷ u32 "itatbmdata0"
    ∷ u32 "itatbmctr2"
    ∷ u32 "itatbmctr1"
    ∷ u32 "itatbmctr0"
    ∷ u32 "itmiscop0"
    ∷ reserved (0xee8 - 0xee4)
    ∷ u32 "ittrflin"
    ∷ u32 "itatbdata0"
    ∷ u32 "itatbctr2"
    ∷ u32 "itatbctr1"
    ∷ u32 "itatbctr0"
    ∷ reserved (0xf00 - 0xefc)
    ∷ u32 "itctrl"
    ∷ reserved (0xfa0 - 0xf04)
    ∷ u32 "claimset"
    ∷ u32 "claimclr"
    ∷ reserved (0xfb0 - 0xfa8)
    ∷ u32 "lar"
    ∷ u32 "lsr"
    ∷ u32 "authstatus"
    ∷ reserved (0xfc8 - 0xfbc)
    ∷ u32 "devid"
    ∷ u32 "devtype"
    ∷ u32 "periphid4"
    ∷ u32 "periphid5"
    ∷ u32 "periphid6"
    ∷ u32 "periphid7"
    ∷ u32 "periphid0"
    ∷ u32 "periphid1"
    ∷ u32 "periphid2"
    ∷ u32 "periphid3"
    ∷ u32 "compid0"
    ∷ u32 "compid1"
    ∷ u32 "compid2"
    ∷ u32 "compid3"
    ∷ []
