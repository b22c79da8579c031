-- ===== src/Layout/Blocks/Epu.antt =====
-- Register structures of ls-common/dcsr_epu_v2.h, ls-common/dcsr_gdi_ls1.h.
use ls_dbg.Prelude.{◌-◌, List, [], ◌∷◌}
use ls_dbg.Layout.{Field, u32, u32s, reserved, structs}

-- `struct epu_v2`
abbrev pub epu_v2_fields : List Field
epu_v2_fields =
    u32 "epgcr"
    ∷ reserved (0x10 - 0x04)
    ∷ u32 "epesr"
    ∷ reserved (0x20 - 0x14)
    ∷ u32s "episr" 4
    ∷ u32 "epctrisr"
    ∷ reserved (0x40 - 0x34)
    ∷ u32 "epctrcsr"
    ∷ reserved (0x50 - 0x44)
    ∷ u32s "epevtcr" 10
    ∷ reserved (0x90 - 0x78)
    ∷ u32 "epxtrigcr"
    ∷ reserved (0x100 - 0x94)
    ∷ u32s "epimcr" 32
    ∷ reserved (0x200 - 0x180)
    ∷ structs "scu_ctrl" 8 16
    ∷ reserved (0x300 - 0x280)
    ∷ u32s "epecr" 16
    ∷ reserved (0x400 - 0x340)
    ∷ u32s "epacr" 16
    ∷ reserved (0x480 - 0x440)
    ∷ u32s "epgacr" 16
    ∷ reserved (0x540 - 0x4c0)
    ∷ u32s "epctrgcr" 4
    ∷ reserved (0x580 - 0x550)
    ∷ u32s "epegcr" 3
    ∷ reserved (0x600 - 0x58c)
    ∷ u32 "epfsmsr0"
    ∷ reserved (0x610 - 0x604)
    ∷ u32s "epfsmcmpr" 8
    ∷ u32s "epfsmcr" 8
    ∷ reserved (0x800 - 0x650)
    ∷ u32s "epccr" 32
    ∷ reserved (0x900 - 0x880)
    ∷ u32s "epcmpr" 32
    ∷ reserved (0xA00 - 0x980)
    ∷ u32s "epctr" 32
    ∷ reserved (0xB00 - 0xA80)
    ∷ u32s "epcapr" 32
    ∷ reserved (0xF00 - 0xB80)
    ∷ u32s "eprsrv" 60
    ∷ u32s "ephsr" 4
    ∷ []

-- `struct gdi`
abbrev pub gdi_fields : List Field
gdi_fields =
    u32 "gdcr"
    ∷ u32 "gdsr"
    ∷ reserved (0xFF - 0x07)
    ∷ u32 "gdrescr1"
    ∷ u32 "gdrescr2"
    ∷ reserved (0x1FF - 0x107)
    ∷ u32s "gdpescr" 32
    ∷ reserved (0x2FF - 0x27F)
    ∷ structs "gdgpc" 16 8
    ∷ []
