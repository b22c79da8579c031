-- ===== src/Debugfs/Files/Core.antt =====
-- The register files of ls-dbg/module/dcsr_core.c.
use ls_dbg.Prelude.{List, [], ◌∷◌, ◌++◌}
use ls_dbg.Layout.{offset_of}
use ls_dbg.Layout.Blocks.Core.{core_pmu_struct_fields}
use ls_dbg.Debugfs.{File, rw_mode, ro_mode, wo_mode, plain, numbered, for_each}

-- The files of ls-dbg/module/dcsr_core.c, in the order of their creation.
unfoldable pub core_files : List File
unfolding offset_of for_each
core_files =
    (for_each 4 0
      (λ i. numbered rw_mode "pmxevcntr" i (offset_of core_pmu_struct_fields "pmxevcntr" i) ∷ []))
    ++ (plain rw_mode "pmccntr" (offset_of core_pmu_struct_fields "pmccntr" 0) ∷ [])
    ++ (for_each 4 0 (λ i.
        numbered rw_mode "pmxevtyper" i (offset_of core_pmu_struct_fields "pmxevtyper" i) ∷ []))
    ++ (plain rw_mode "pmxevtyper31" (offset_of core_pmu_struct_fields "pmxevtyper31" 0)
        ∷ plain rw_mode "pmctenset" (offset_of core_pmu_struct_fields "pmctenset" 0)
        ∷ plain rw_mode "pmcntenclr" (offset_of core_pmu_struct_fields "pmcntenclr" 0)
        ∷ plain rw_mode "pmintenset" (offset_of core_pmu_struct_fields "pmintenset" 0)
        ∷ plain rw_mode "pmintenclr" (offset_of core_pmu_struct_fields "pmintenclr" 0)
        ∷ plain rw_mode "pmovsr" (offset_of core_pmu_struct_fields "pmovsr" 0)
        ∷ plain wo_mode "pmswinc" (offset_of core_pmu_struct_fields "pmswinc" 0)
        ∷ plain ro_mode "pmcfgr" (offset_of core_pmu_struct_fields "pmcfgr" 0)
        ∷ plain rw_mode "pmcr" (offset_of core_pmu_struct_fields "pmcr" 0)
        ∷ plain rw_mode "pmuserenr" (offset_of core_pmu_struct_fields "pmuserenr" 0)
        ∷ [])
    ++ (for_each 2 0
        (λ i. numbered ro_mode "pmceid" i (offset_of core_pmu_struct_fields "pmceid" i) ∷ []))
    ++ (plain wo_mode "pmlar" (offset_of core_pmu_struct_fields "pmlar" 0)
        ∷ plain ro_mode "pmlsr" (offset_of core_pmu_struct_fields "pmlsr" 0)
        ∷ plain ro_mode "pmauthstatus" (offset_of core_pmu_struct_fields "pmauthstatus" 0)
        ∷ plain ro_mode "pmdevtype" (offset_of core_pmu_struct_fields "pmdevtype" 0)
        ∷ plain ro_mode "pmpid4" (offset_of core_pmu_struct_fields "pmpid4" 0)
        ∷ plain ro_mode "pmpid5" (offset_of core_pmu_struct_fields "pmpid5" 0)
        ∷ plain ro_mode "pmpid6" (offset_of core_pmu_struct_fields "pmpid6" 0)
        ∷ plain ro_mode "pmpid7" (offset_of core_pmu_struct_fields "pmpid7" 0)
        ∷ plain ro_mode "pmpid0" (offset_of core_pmu_struct_fields "pmpid0" 0)
        ∷ plain ro_mode "pmpid1" (offset_of core_pmu_struct_fields "pmpid1" 0)
        ∷ plain ro_mode "pmpid2" (offset_of core_pmu_struct_fields "pmpid2" 0)
        ∷ plain ro_mode "pmpid3" (offset_of core_pmu_struct_fields "pmpid3" 0)
        ∷ [])
    ++ (for_each 4 0
        (λ i. numbered ro_mode "pmcid" i (offset_of core_pmu_struct_fields "pmcid" i) ∷ []))
