-- ===== src/Debugfs/Files/Trace.antt =====
-- The register files of ls-dbg/module/dcsr_cstf.c, ls-dbg/module/dcsr_etr.c.
use ls_dbg.Prelude.{List, [], ◌∷◌, ◌++◌}
use ls_dbg.Layout.{offset_of}
use ls_dbg.Layout.Blocks.Trace.{funnel_fields}
use ls_dbg.Layout.Blocks.Trace.{etr_fields}
use ls_dbg.Debugfs.{File, rw_mode, ro_mode, wo_mode, plain, numbered, for_each}

-- The files of ls-dbg/module/dcsr_cstf.c, in the order of their creation.
unfoldable pub cstf_files : List File
unfolding offset_of for_each
cstf_files =
    (plain rw_mode "cr" (offset_of funnel_fields "cr" 0)
      ∷ plain rw_mode "pcr" (offset_of funnel_fields "pcr" 0)
      ∷ plain rw_mode "itatbdata0" (offset_of funnel_fields "itatbdata0" 0)
      ∷ plain rw_mode "itatbctr2" (offset_of funnel_fields "itatbctr2" 0)
      ∷ plain rw_mode "itatbctr1" (offset_of funnel_fields "itatbctr1" 0)
      ∷ plain rw_mode "itatbctr0" (offset_of funnel_fields "itatbctr0" 0)
      ∷ plain rw_mode "imcr" (offset_of funnel_fields "imcr" 0)
      ∷ plain rw_mode "ctsr" (offset_of funnel_fields "ctsr" 0)
      ∷ plain rw_mode "ctcr" (offset_of funnel_fields "ctcr" 0)
      ∷ plain wo_mode "lar" (offset_of funnel_fields "lar" 0)
      ∷ plain ro_mode "lsr" (offset_of funnel_fields "lsr" 0)
      ∷ plain ro_mode "asr" (offset_of funnel_fields "asr" 0)
      ∷ plain ro_mode "dir" (offset_of funnel_fields "dir" 0)
      ∷ plain ro_mode "dtir" (offset_of funnel_fields "dtir" 0)
      ∷ plain ro_mode "pidr4" (offset_of funnel_fields "pidr4" 0)
      ∷ plain ro_mode "pidr5" (offset_of funnel_fields "pidr5" 0)
      ∷ plain ro_mode "pidr6" (offset_of funnel_fields "pidr6" 0)
      ∷ plain ro_mode "pidr7" (offset_of funnel_fields "pidr7" 0)
      ∷ plain ro_mode "pidr0" (offset_of funnel_fields "pidr0" 0)
      ∷ plain ro_mode "pidr1" (offset_of funnel_fields "pidr1" 0)
      ∷ plain ro_mode "pidr2" (offset_of funnel_fields "pidr2" 0)
      ∷ plain ro_mode "pidr3" (offset_of funnel_fields "pidr3" 0)
      ∷ [])
    ++ (for_each 4 0 (λ i. numbered ro_mode "cidr" i (offset_of funnel_fields "cidr" i) ∷ []))

-- The files of ls-dbg/module/dcsr_etr.c, in the order of their creation.
unfoldable pub etr_files : List File
unfolding offset_of
etr_files =
    (plain rw_mode "rsz" (offset_of etr_fields "rsz" 0)
      ∷ plain ro_mode "sts" (offset_of etr_fields "sts" 0)
      ∷ plain ro_mode "rrd" (offset_of etr_fields "rrd" 0)
      ∷ plain rw_mode "rrp" (offset_of etr_fields "rrp" 0)
      ∷ plain rw_mode "rwp" (offset_of etr_fields "rwp" 0)
      ∷ plain rw_mode "trg" (offset_of etr_fields "trg" 0)
      ∷ plain rw_mode "ctl" (offset_of etr_fields "ctl" 0)
      ∷ plain wo_mode "rwd" (offset_of etr_fields "rwd" 0)
      ∷ plain rw_mode "mode" (offset_of etr_fields "mode" 0)
      ∷ plain ro_mode "lbuflevel" (offset_of etr_fields "lbuflevel" 0)
      ∷ plain ro_mode "cbuflevel" (offset_of etr_fields "cbuflevel" 0)
      ∷ plain rw_mode "bufwm" (offset_of etr_fields "bufwm" 0)
      ∷ plain rw_mode "rrphi" (offset_of etr_fields "rrphi" 0)
      ∷ plain rw_mode "rwphi" (offset_of etr_fields "rwphi" 0)
      ∷ plain rw_mode "axictl" (offset_of etr_fields "axictl" 0)
      ∷ plain rw_mode "dbalo" (offset_of etr_fields "dbalo" 0)
      ∷ plain rw_mode "dbahi" (offset_of etr_fields "dbahi" 0)
      ∷ plain ro_mode "ffsr" (offset_of etr_fields "ffsr" 0)
      ∷ plain rw_mode "ffcr" (offset_of etr_fields "ffcr" 0)
      ∷ plain rw_mode "pscr" (offset_of etr_fields "pscr" 0)
      ∷ plain wo_mode "itatbmdata0" (offset_of etr_fields "itatbmdata0" 0)
      ∷ plain ro_mode "itatbmctr2" (offset_of etr_fields "itatbmctr2" 0)
      ∷ plain wo_mode "itatbmctr1" (offset_of etr_fields "itatbmctr1" 0)
      ∷ plain wo_mode "itatbmctr0" (offset_of etr_fields "itatbmctr0" 0)
      ∷ plain wo_mode "itmiscop0" (offset_of etr_fields "itmiscop0" 0)
      ∷ plain ro_mode "ittrflin" (offset_of etr_fields "ittrflin" 0)
      ∷ plain ro_mode "itatbdata0" (offset_of etr_fields "itatbdata0" 0)
      ∷ plain wo_mode "itatbctr2" (offset_of etr_fields "itatbctr2" 0)
      ∷ plain ro_mode "itatbctr1" (offset_of etr_fields "itatbctr1" 0)
      ∷ plain ro_mode "itatbctr0" (offset_of etr_fields "itatbctr0" 0)
      ∷ plain rw_mode "itctrl" (offset_of etr_fields "itctrl" 0)
      ∷ plain rw_mode "claimset" (offset_of etr_fields "claimset" 0)
      ∷ plain rw_mode "claimclr" (offset_of etr_fields "claimclr" 0)
      ∷ plain wo_mode "lar" (offset_of etr_fields "lar" 0)
      ∷ plain ro_mode "lsr" (offset_of etr_fields "lsr" 0)
      ∷ plain ro_mode "authstatus" (offset_of etr_fields "authstatus" 0)
      ∷ plain ro_mode "devid" (offset_of etr_fields "devid" 0)
      ∷ plain ro_mode "devtype" (offset_of etr_fields "devtype" 0)
      ∷ plain ro_mode "periphid4" (offset_of etr_fields "periphid4" 0)
      ∷ plain ro_mode "periphid5" (offset_of etr_fields "periphid5" 0)
      ∷ plain ro_mode "periphid6" (offset_of etr_fields "periphid6" 0)
      ∷ plain ro_mode "periphid7" (offset_of etr_fields "periphid7" 0)
      ∷ plain ro_mode "periphid0" (offset_of etr_fields "periphid0" 0)
      ∷ plain ro_mode "periphid1" (offset_of etr_fields "periphid1" 0)
      ∷ plain ro_mode "periphid2" (offset_of etr_fields "periphid2" 0)
      ∷ plain ro_mode "periphid3" (offset_of etr_fields "periphid3" 0)
      ∷ plain ro_mode "compid0" (offset_of etr_fields "compid0" 0)
      ∷ plain ro_mode "compid1" (offset_of etr_fields "compid1" 0)
      ∷ plain ro_mode "compid2" (offset_of etr_fields "compid2" 0)
      ∷ plain ro_mode "compid3" (offset_of etr_fields "compid3" 0)
      ∷ [])
