-- ===== src/Debugfs/Files/Etf.antt =====
-- The register files of ls-dbg/module/dcsr_etf.c.
use ls_dbg.Prelude.{List, [], ◌∷◌}
use ls_dbg.Layout.{offset_of}
use ls_dbg.Layout.Blocks.Trace.{etf_fields}
use ls_dbg.Debugfs.{File, rw_mode, ro_mode, wo_mode, plain}

-- The files of ls-dbg/module/dcsr_etf.c, in the order of their creation.
unfoldable pub etf_files : List File
unfolding offset_of
etf_files =
    (plain ro_mode "rsz" (offset_of etf_fields "rsz" 0)
      ∷ plain ro_mode "sts" (offset_of etf_fields "sts" 0)
      ∷ plain ro_mode "rrd" (offset_of etf_fields "rrd" 0)
      ∷ plain rw_mode "rrp" (offset_of etf_fields "rrp" 0)
      ∷ plain rw_mode "rwp" (offset_of etf_fields "rwp" 0)
      ∷ plain rw_mode "trg" (offset_of etf_fields "trg" 0)
      ∷ plain rw_mode "ctl" (offset_of etf_fields "ctl" 0)
      ∷ plain wo_mode "rwd" (offset_of etf_fields "rwd" 0)
      ∷ plain rw_mode "mode" (offset_of etf_fields "mode" 0)
      ∷ plain ro_mode "lbuflevel" (offset_of etf_fields "lbuflevel" 0)
      ∷ plain ro_mode "cbuflevel" (offset_of etf_fields "cbuflevel" 0)
      ∷ plain rw_mode "bufwm" (offset_of etf_fields "bufwm" 0)
      ∷ plain rw_mode "rrphi" (offset_of etf_fields "rrphi" 0)
      ∷ plain rw_mode "rwphi" (offset_of etf_fields "rwphi" 0)
      ∷ plain rw_mode "axictl" (offset_of etf_fields "axictl" 0)
      ∷ plain rw_mode "dbalo" (offset_of etf_fields "dbalo" 0)
      ∷ plain rw_mode "dbahi" (offset_of etf_fields "dbahi" 0)
      ∷ plain ro_mode "ffsr" (offset_of etf_fields "ffsr" 0)
      ∷ plain rw_mode "ffcr" (offset_of etf_fields "ffcr" 0)
      ∷ plain rw_mode "pscr" (offset_of etf_fields "pscr" 0)
      ∷ plain wo_mode "itatbmdata0" (offset_of etf_fields "itatbmdata0" 0)
      ∷ plain ro_mode "itatbmctr2" (offset_of etf_fields "itatbmctr2" 0)
      ∷ plain wo_mode "itatbmctr1" (offset_of etf_fields "itatbmctr1" 0)
      ∷ plain wo_mode "itatbmctr0" (offset_of etf_fields "itatbmctr0" 0)
      ∷ plain wo_mode "itmiscop0" (offset_of etf_fields "itmiscop0" 0)
      ∷ plain ro_mode "ittrflin" (offset_of etf_fields "ittrflin" 0)
      ∷ plain ro_mode "itatbdata0" (offset_of etf_fields "itatbdata0" 0)
      ∷ plain wo_mode "itatbctr2" (offset_of etf_fields "itatbctr2" 0)
      ∷ plain ro_mode "itatbctr1" (offset_of etf_fields "itatbctr1" 0)
      ∷ plain ro_mode "itatbctr0" (offset_of etf_fields "itatbctr0" 0)
      ∷ plain rw_mode "itctrl" (offset_of etf_fields "itctrl" 0)
      ∷ plain rw_mode "claimset" (offset_of etf_fields "claimset" 0)
      ∷ plain rw_mode "claimclr" (offset_of etf_fields "claimclr" 0)
      ∷ plain wo_mode "lar" (offset_of etf_fields "lar" 0)
      ∷ plain ro_mode "lsr" (offset_of etf_fields "lsr" 0)
      ∷ plain ro_mode "authstatus" (offset_of etf_fields "authstatus" 0)
      ∷ plain ro_mode "devid" (offset_of etf_fields "devid" 0)
      ∷ plain ro_mode "devtype" (offset_of etf_fields "devtype" 0)
      ∷ plain ro_mode "periphid4" (offset_of etf_fields "periphid4" 0)
      ∷ plain ro_mode "periphid5" (offset_of etf_fields "periphid5" 0)
      ∷ plain ro_mode "periphid6" (offset_of etf_fields "periphid6" 0)
      ∷ plain ro_mode "periphid7" (offset_of etf_fields "periphid7" 0)
      ∷ plain ro_mode "periphid0" (offset_of etf_fields "periphid0" 0)
      ∷ plain ro_mode "periphid1" (offset_of etf_fields "periphid1" 0)
      ∷ plain ro_mode "periphid2" (offset_of etf_fields "periphid2" 0)
      ∷ plain ro_mode "periphid3" (offset_of etf_fields "periphid3" 0)
      ∷ plain ro_mode "compid0" (offset_of etf_fields "compid0" 0)
      ∷ plain ro_mode "compid1" (offset_of etf_fields "compid1" 0)
      ∷ plain ro_mode "compid2" (offset_of etf_fields "compid2" 0)
      ∷ plain ro_mode "compid3" (offset_of etf_fields "compid3" 0)
      ∷ [])
