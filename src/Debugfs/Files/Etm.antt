-- ===== src/Debugfs/Files/Etm.antt =====
-- The register files of ls-dbg/module/dcsr_etm.c.
use ls_dbg.Prelude.{◌-◌, List, [], ◌∷◌, ◌++◌}
use ls_dbg.Layout.{offset_of}
use ls_dbg.Layout.Blocks.Core.{etm_fields}
use ls_dbg.Debugfs.{File, rw_mode, ro_mode, wo_mode, plain, numbered, for_each}

-- The files of ls-dbg/module/dcsr_etm.c, in the order of their creation.
unfoldable pub etm_files : List File
unfolding offset_of for_each
etm_files =
    (plain rw_mode "etmcr" (offset_of etm_fields "etmcr" 0)
      ∷ plain ro_mode "etmccr" (offset_of etm_fields "etmccr" 0)
      ∷ plain rw_mode "etmtrigger" (offset_of etm_fields "etmtrigger" 0)
      ∷ plain rw_mode "etmasicctlr" (offset_of etm_fields "etmasicctlr" 0)
      ∷ plain rw_mode "etmsr" (offset_of etm_fields "etmsr" 0)
      ∷ plain ro_mode "etmscr" (offset_of etm_fields "etmscr" 0)
      ∷ plain rw_mode "etmtsscr" (offset_of etm_fields "etmtsscr" 0)
      ∷ plain rw_mode "etmtecr2" (offset_of etm_fields "etmtecr2" 0)
      ∷ plain rw_mode "etmteevr" (offset_of etm_fields "etmteevr" 0)
      ∷ plain rw_mode "etmtecr1" (offset_of etm_fields "etmtecr1" 0)
      ∷ plain rw_mode "etmfflr" (offset_of etm_fields "etmfflr" 0)
      ∷ plain rw_mode "etmvdevr" (offset_of etm_fields "etmvdevr" 0)
      ∷ plain rw_mode "etmvdcr1" (offset_of etm_fields "etmvdcr1" 0)
      ∷ plain rw_mode "etmvdcr3" (offset_of etm_fields "etmvdcr3" 0)
      ∷ [])
    ++ (for_each 8 1
        (λ i. numbered rw_mode "etmacvr" i (offset_of etm_fields "etmacvr" (i - 1)) ∷ []))
    ++ (for_each 8 1
        (λ i. numbered rw_mode "etmactr" i (offset_of etm_fields "etmactr" (i - 1)) ∷ []))
    ++ (plain rw_mode "etmdcvr1" (offset_of etm_fields "etmdcvr1" 0)
        ∷ plain rw_mode "etmdcvr3" (offset_of etm_fields "etmdcvr3" 0)
        ∷ plain rw_mode "etmdcmr1" (offset_of etm_fields "etmdcmr1" 0)
        ∷ plain rw_mode "etmdcmr3" (offset_of etm_fields "etmdcmr3" 0)
        ∷ [])
    ++ (for_each 2 1
        (λ i. numbered rw_mode "etmcntrldvr" i (offset_of etm_fields "etmcntrldvr" (i - 1)) ∷ []))
    ++ (for_each 2 1
        (λ i. numbered rw_mode "etmcntenr" i (offset_of etm_fields "etmcntenr" (i - 1)) ∷ []))
    ++ (for_each 2 1
        (λ i. numbered rw_mode "etmcntrldevr" i (offset_of etm_fields "etmcntrldevr" (i - 1)) ∷ []))
    ++ (for_each 2 1
        (λ i. numbered rw_mode "etmcntvr" i (offset_of etm_fields "etmcntvr" (i - 1)) ∷ []))
    ++ (for_each 6 1
        (λ i. numbered rw_mode "etmsqabevr" i (offset_of etm_fields "etmsqabevr" (i - 1)) ∷ []))
    ++ (plain rw_mode "etmsqr" (offset_of etm_fields "etmsqr" 0) ∷ [])
    ++ (for_each 2 1
        (λ i. numbered rw_mode "etmextoutevr" i (offset_of etm_fields "etmextoutevr" (i - 1)) ∷ []))
    ++ (plain rw_mode "etmcidcvr1" (offset_of etm_fields "etmcidcvr1" 0)
        ∷ plain rw_mode "etmcidcmr" (offset_of etm_fields "etmcidcmr" 0)
        ∷ plain rw_mode "etmsyncfr" (offset_of etm_fields "etmsyncfr" 0)
        ∷ plain ro_mode "etmidr" (offset_of etm_fields "etmidr" 0)
        ∷ plain ro_mode "etmccer" (offset_of etm_fields "etmccer" 0)
        ∷ plain rw_mode "etmextinselr" (offset_of etm_fields "etmextinselr" 0)
        ∷ plain rw_mode "etmtsevr" (offset_of etm_fields "etmtsevr" 0)
        ∷ plain rw_mode "etmauxcr" (offset_of etm_fields "etmauxcr" 0)
        ∷ plain rw_mode "etmtraceidr" (offset_of etm_fields "etmtraceidr" 0)
        ∷ plain ro_mode "etmidr2" (offset_of etm_fields "etmidr2" 0)
        ∷ plain wo_mode "etmvmidcvr" (offset_of etm_fields "etmvmidcvr" 0)
        ∷ plain wo_mode "etmoslar" (offset_of etm_fields "etmoslar" 0)
        ∷ plain ro_mode "etmoslsr" (offset_of etm_fields "etmoslsr" 0)
        ∷ plain rw_mode "etmossrr" (offset_of etm_fields "etmossrr" 0)
        ∷ plain rw_mode "etmpdcr" (offset_of etm_fields "etmpdcr" 0)
        ∷ plain ro_mode "etmpdsr" (offset_of etm_fields "etmpdsr" 0)
        ∷ plain wo_mode "itmiscout" (offset_of etm_fields "itmiscout" 0)
        ∷ plain ro_mode "itmiscin" (offset_of etm_fields "itmiscin" 0)
        ∷ plain wo_mode "ittriggerreq" (offset_of etm_fields "ittriggerreq" 0)
        ∷ plain wo_mode "itatbdata0" (offset_of etm_fields "itatbdata0" 0)
        ∷ plain ro_mode "itatbctr2" (offset_of etm_fields "itatbctr2" 0)
        ∷ plain wo_mode "itatbctr1" (offset_of etm_fields "itatbctr1" 0)
        ∷ plain wo_mode "itatbctr0" (offset_of etm_fields "itatbctr0" 0)
        ∷ plain rw_mode "etmitctrl" (offset_of etm_fields "etmitctrl" 0)
        ∷ plain rw_mode "etmclaimset" (offset_of etm_fields "etmclaimset" 0)
        ∷ plain rw_mode "etmclaimclr" (offset_of etm_fields "etmclaimclr" 0)
        ∷ plain wo_mode "etmlar" (offset_of etm_fields "etmlar" 0)
        ∷ plain ro_mode "etmlsr" (offset_of etm_fields "etmlsr" 0)
        ∷ plain ro_mode "etmauthstatus" (offset_of etm_fields "etmauthstatus" 0)
        ∷ plain ro_mode "etmdevid" (offset_of etm_fields "etmdevid" 0)
        ∷ plain ro_mode "etmdevtype" (offset_of etm_fields "etmdevtype" 0)
        ∷ plain ro_mode "etmpidr4" (offset_of etm_fields "etmpidr4" 0)
        ∷ plain ro_mode "etmpidr5" (offset_of etm_fields "etmpidr5" 0)
        ∷ plain ro_mode "etmpidr6" (offset_of etm_fields "etmpidr6" 0)
        ∷ plain ro_mode "etmpidr7" (offset_of etm_fields "etmpidr7" 0)
        ∷ plain ro_mode "etmpidr0" (offset_of etm_fields "etmpidr0" 0)
        ∷ plain ro_mode "etmpidr1" (offset_of etm_fields "etmpidr1" 0)
        ∷ plain ro_mode "etmpidr2" (offset_of etm_fields "etmpidr2" 0)
        ∷ plain ro_mode "etmpidr3" (offset_of etm_fields "etmpidr3" 0)
        ∷ [])
    ++ (for_each 4 1
        (λ i. numbered ro_mode "etmcidr" i (offset_of etm_fields "etmcidr" (i - 1)) ∷ []))
