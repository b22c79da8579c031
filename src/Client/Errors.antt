-- ===== src/Client/Errors.antt =====
-- The tests of the test program that expect calls to be refused.
use ls_dbg.RegAccess.Tables.{IsMapped}
use ls_dbg.Prelude.{ℕ, ◌<◌, ◌≤◌, ◌≡◌, ◌≢◌, refl, arith}
use ls_dbg.Kernel.{Kernel, IsKernel, MapInfo, neg}
use ls_dbg.TraceIp.{etm0, etm1, etr, etf0, etf1, cstf0, cstf1, epu, vcount, num_ids}
use ls_dbg.Reservation.{group_of_id, group_size, res_reserve, res_relinq, reserve_in}
use ls_dbg.Client.{
  Locals, Process, go, reserve_res, release_res, resource_res_error, test_invalid_id,
  test_invalid_offset, test_invalid_regsize, test_invalid_buffer,
}
use ls_dbg.Client.Calls.{IsHosted, Leads, Passes, Passes-both}
use ls_dbg.Client.Refused.{
  HasMaps, unknown-Passes, beyond-Passes, bad_size-Passes, bad_resource-Passes, bad_buffer-Passes,
}

module _ {W : Type 0} (k : Kernel W) (u : Locals W) (host : IsHosted k u) where
  resource_res_error-Passes :
      (maps : ℕ → MapInfo) → Passes k u (HasMaps k u maps) (resource_res_error k u)
  unfolding resource_res_error reserve_res release_res reserve_in group_of_id group_size
  resource_res_error-Passes maps =
      let bad = bad_resource-Passes k u host maps in
      Passes-both k u (HasMaps k u maps) _ _
        (bad (res_reserve k) 0x1000 15 host.reserve_ne (omega arith) (omega arith) (λ rr m e. refl))
        (Passes-both k u (HasMaps k u maps) _ _
          (bad (res_reserve k) 0 0xFF host.reserve_ne (omega arith) (omega arith)
            (λ rr m e. rw e refl))
          (Passes-both k u (HasMaps k u maps) _ _
            (bad (res_relinq k) 0x1000 15 host.relinq_ne (omega arith) (omega arith)
              (λ rr m e. refl))
            (bad (res_relinq k) 0 0xFF host.relinq_ne (omega arith) (omega arith)
              (λ rr m e. rw e refl))))

  test_invalid_regsize-Passes :
      (maps : ℕ → MapInfo) → Passes k u (HasMaps k u maps) (test_invalid_regsize k u)
  unfolding test_invalid_regsize
  test_invalid_regsize-Passes maps =
      let bad = bad_size-Passes k u host maps etm0 in
      Passes-both k u (HasMaps k u maps) _ _
        (bad 8 (omega arith) (omega arith) (omega arith) (omega arith))
        (Passes-both k u (HasMaps k u maps) _ _
          (bad 16 (omega arith) (omega arith) (omega arith) (omega arith))
          (bad 100 (omega arith) (omega arith) (omega arith) (omega arith)))

  test_invalid_id-Passes :
      (maps : ℕ → MapInfo)
      → IsKernel k
      → ((j : ℕ) → (maps j).size ≤ 0x100000)
      → Passes k u (HasMaps k u maps) (test_invalid_id k u)
  unfolding test_invalid_id
  test_invalid_id-Passes maps law small =
      Passes-both k u (HasMaps k u maps) _ _
        (unknown-Passes k u host maps num_ids law (omega arith) (omega arith))
        (Passes-both k u (HasMaps k u maps) _ _
          (unknown-Passes k u host maps (neg 5) law (omega arith) (omega arith))
          (Passes-both k u (HasMaps k u maps) _ _
            (unknown-Passes k u host maps 1000 law (omega arith) (omega arith))
            (beyond-Passes k u host maps vcount law small (omega arith))))

  test_invalid_offset-Passes :
      (maps : ℕ → MapInfo)
      → IsKernel k
      → ((j : ℕ) → (maps j).size ≤ 0x100000)
      → Passes k u (HasMaps k u maps) (test_invalid_offset k u)
  unfolding test_invalid_offset
  test_invalid_offset-Passes maps law small =
      let all : (id : ℕ) → id < num_ids → Passes k u (HasMaps k u maps) _ =
        λ id. beyond-Passes k u host maps id law small in
      let both = Passes-both k u (HasMaps k u maps) in
      both _ _ (all etm0 (omega arith)) (
        both _ _ (all etm1 (omega arith)) (
          both _ _ (all etr (omega arith)) (
            both _ _ (all etf0 (omega arith)) (
              both _ _ (all etf1 (omega arith)) (
                both _ _ (all cstf0 (omega arith)) (
                  both _ _ (all cstf1 (omega arith))
                    (both _ _ (all epu (omega arith)) (all vcount (omega arith)))))))))

  test_invalid_buffer-Passes :
      (maps : ℕ → MapInfo)
      → IsMapped k maps etm0 0x1000
      → ((v : ℕ) (w : W) → (k.put_user 4 v 0 w).0 ≢ 0)
      → ((v : ℕ) (w : W) → (k.put_user 4 v 0xaabbccdd w).0 ≢ 0)
      → Passes k u (HasMaps k u maps) (test_invalid_buffer k u)
  unfolding test_invalid_buffer
  test_invalid_buffer-Passes maps etm null bad =
      Passes-both k u (HasMaps k u maps) _ _
        (bad_buffer-Passes k u host maps 0 etm (omega arith) null)
        (bad_buffer-Passes k u host maps 0xaabbccdd etm (omega arith) bad)

  -- The test program's five tests of calls that are to be refused pass on any machine whose map
  -- table has no module of more than 0x100000 bytes, where ETM0 is mapped and `put_user` refuses
  -- the two buffers that the program takes for invalid.
  pub error_tests_pass :
      (p : Process W)
      → IsKernel k
      → ((j : ℕ) → (p.machine.maps j).size ≤ 0x100000)
      → IsMapped k p.machine.maps etm0 0x1000
      → ((v : ℕ) (w : W) → (k.put_user 4 v 0 w).0 ≢ 0)
      → ((v : ℕ) (w : W) → (k.put_user 4 v 0xaabbccdd w).0 ≢ 0)
      → ((resource_res_error k u p).0 ≡ go tt)
        × ((test_invalid_id k u p).0 ≡ go tt)
        × ((test_invalid_offset k u p).0 ≡ go tt)
        × ((test_invalid_buffer k u p).0 ≡ go tt)
        × ((test_invalid_regsize k u p).0 ≡ go tt)
  unfolding Leads HasMaps
  error_tests_pass p law small etm null bad =
      let maps = p.machine.maps in
      (
        (resource_res_error-Passes maps p refl).0,
        (test_invalid_id-Passes maps law small p refl).0,
        (test_invalid_offset-Passes maps law small p refl).0,
        (test_invalid_buffer-Passes maps etm null bad p refl).0,
        (test_invalid_regsize-Passes maps p refl).0,
      )
