-- ===== src/Debugfs/Files/Epu.antt =====
-- The register files of ls-dbg/module/dcsr_epu.c, ls-dbg/module/dcsr_gdi.c.
use ls_dbg.Prelude.{◌+◌, ◌-◌, List, [], ◌∷◌, ◌++◌}
use ls_dbg.Layout.{offset_of}
use ls_dbg.Layout.Blocks.Epu.{epu_v2_fields}
use ls_dbg.Layout.Blocks.Epu.{gdi_fields}
use ls_dbg.Debugfs.{File, rw_mode, plain, numbered, for_each}

-- The files of ls-dbg/module/dcsr_epu.c, in the order of their creation.
unfoldable pub epu_files : List File
unfolding offset_of for_each
epu_files =
    (plain rw_mode "epgcr" (offset_of epu_v2_fields "epgcr" 0)
      ∷ plain rw_mode "epesr" (offset_of epu_v2_fields "epesr" 0)
      ∷ plain rw_mode "epctrisr" (offset_of epu_v2_fields "epctrisr" 0)
      ∷ plain rw_mode "epctrcsr" (offset_of epu_v2_fields "epctrcsr" 0)
      ∷ [])
    ++ (for_each 4 0 (λ i. numbered rw_mode "episr" i (offset_of epu_v2_fields "episr" i) ∷ []))
    ++ (for_each 32 0 (λ i.
        numbered rw_mode "epimcr" i (offset_of epu_v2_fields "epimcr" i)
        ∷ numbered rw_mode "epccr" i (offset_of epu_v2_fields "epccr" i)
        ∷ numbered rw_mode "epcmpr" i (offset_of epu_v2_fields "epcmpr" i)
        ∷ numbered rw_mode "epctr" i (offset_of epu_v2_fields "epctr" i)
        ∷ numbered rw_mode "epcapr" i (offset_of epu_v2_fields "epcapr" i)
        ∷ []))
    ++ (for_each 16 0 (λ i.
        numbered rw_mode "epsmcr" i (offset_of epu_v2_fields "scu_ctrl" i)
        ∷ numbered rw_mode "epecr" i (offset_of epu_v2_fields "epecr" i)
        ∷ numbered rw_mode "epacr" i (offset_of epu_v2_fields "epacr" i)
        ∷ numbered rw_mode "epgacr" i (offset_of epu_v2_fields "epgacr" i)
        ∷ []))
    ++ (for_each 4 0
        (λ i. numbered rw_mode "epctrgcr" i (offset_of epu_v2_fields "epctrgcr" i) ∷ []))
    ++ (for_each 3 0 (λ i. numbered rw_mode "epegcr" i (offset_of epu_v2_fields "epegcr" i) ∷ []))
    ++ (plain rw_mode "epxtrigcr" (offset_of epu_v2_fields "epxtrigcr" 0) ∷ [])
    ++ (for_each 10 0
        (λ i. numbered rw_mode "epevtcr" i (offset_of epu_v2_fields "epevtcr" i) ∷ []))
    ++ (plain rw_mode "epfsmsr0" (offset_of epu_v2_fields "epfsmsr0" 0) ∷ [])
    ++ (for_each 8 0 (λ i.
        numbered rw_mode "epfsmcmpr" i (offset_of epu_v2_fields "epfsmcmpr" i)
        ∷ numbered rw_mode "epfsmcr" i (offset_of epu_v2_fields "epfsmcr" i)
        ∷ []))
    ++ (for_each 60 0
        (λ i. numbered rw_mode "eprsrv" (60 - 1 - i) (offset_of epu_v2_fields "eprsrv" i) ∷ []))
    ++ (for_each 4 0
        (λ i. numbered rw_mode "ephsr" (4 - 1 - i) (offset_of epu_v2_fields "ephsr" i) ∷ []))

-- The files of ls-dbg/module/dcsr_gdi.c, in the order of their creation.
unfoldable pub gdi_files : List File
unfolding offset_of for_each
gdi_files =
    (plain rw_mode "gdcr" (offset_of gdi_fields "gdcr" 0)
      ∷ plain rw_mode "gdsr" (offset_of gdi_fields "gdsr" 0)
      ∷ plain rw_mode "gdrescr1" (offset_of gdi_fields "gdrescr1" 0)
      ∷ plain rw_mode "gdrescr2" (offset_of gdi_fields "gdrescr2" 0)
      ∷ [])
    ++ (for_each 32 0 (λ i. numbered rw_mode "gdpescr" i (offset_of gdi_fields "gdpescr" i) ∷ []))
    ++ (for_each 8 1 (λ i.
        numbered rw_mode "gdgpccr" i (offset_of gdi_fields "gdgpc" i)
        ∷ numbered rw_mode "gdgpcmr" i (offset_of gdi_fields "gdgpc" i + 4)
        ∷ numbered rw_mode "gdgpcvr" i (offset_of gdi_fields "gdgpc" i + 8)
        ∷ []))
