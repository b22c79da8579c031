-- ===== src/Client/Refused.antt =====
-- Calls of the test program that the driver refuses.
use native.Mathlib.Nat.{mod-eq_of_lt}
use ls_dbg.RegAccess.Tables.{IsMapped, read_reg_io-mapped}
use ls_dbg.Prelude.{
  ◌+◌, ◌%◌, sym, subst, ℕ, ◌^◌, ◌<◌, ◌≤◌, ◌≡◌, ◌≢◌, inl, refl, ◌∙◌, ap, arith, ◌==◌, ◌||◌, false,
}
use ls_dbg.Kernel.{Kernel, IsKernel, Machine, MapInfo, err, neg, einval, efault}
use ls_dbg.TraceIp.{etm0, num_ids}
use ls_dbg.Reservation.{
  ResourceReservation, resource_reservation_size, group_of_id, resource_reserve, reserve_copied,
  reserve_in,
}
use ls_dbg.Ioctl.{
  decode_reg_access, reg_access_size, dbg_read_reg, dbg_write_reg, reg_access_ioctl,
  ls_dbg_read_reg_internal, read_for_user, put_value,
}
use ls_dbg.Ioctl.User.{ioctl_bad_size, ioctl_dispatch}
use ls_dbg.Ioctl.Virtual.{access_unknown, access_beyond}
use ls_dbg.Client.{
  Locals, Process, encode_reservation, encode_reg_access, ioctl_with, read_reg, fails_with,
  refused_with,
}
use ls_dbg.Client.Calls.{
  decode-encode_reservation, decode-encode_reg_access, IsHosted, Leads, Passes, filled,
  read_refused, fails-eq,
}

module _ {W : Type 0} (k : Kernel W) (u : Locals W) where
  -- The map table is this one.
  unfoldable pub HasMaps : (ℕ → MapInfo) → Process W → Type 0
  HasMaps maps p = p.machine.maps ≡ maps

  module _ (host : IsHosted k u) where
    refused_read-Passes :
        (maps : ℕ → MapInfo) (id offset code : ℕ)
        → id < 2 ^ 32
        → offset < 2 ^ 32
        → 0 < code
        → code < 4096
        → ((m : Machine W)
            → m.maps ≡ maps
            → ls_dbg_read_reg_internal k id offset m ≡ (err (neg code), m))
        → Passes k u (HasMaps maps) (refused_with code (read_reg k u id offset u.val_at 32))
    unfolding Leads HasMaps read_for_user
    refused_read-Passes maps id offset code l h a b refused p same =
        let bytes = encode_reg_access id offset u.val_at 32 in
        let m = filled k u reg_access_size u.ra_at bytes p in
        let read =
          decode-encode_reg_access id offset u.val_at 32 l h (omega (arith, host.val_fits))
            (omega arith) in
        let sized : (decode_reg_access bytes).reg_size ≡ 32 = ap (λ r. r.reg_size) read in
        let call =
          (ioctl_dispatch k m u.ra_at bytes host.write_ne (host.copied _ _ bytes _)
            (inl sized)).0 in
        let done : read_for_user k (decode_reg_access bytes) m ≡ (err (neg code), m) =
          rw read (rw (refused m same) refl) in
        rw (read_refused k u id offset u.val_at 32 code p m a b (call ∙ done)) (refl, same)

    pub bad_size-Passes :
        (maps : ℕ → MapInfo) (id reg_size : ℕ)
        → id < 2 ^ 32
        → reg_size < 2 ^ 32
        → reg_size ≢ 32
        → reg_size ≢ 64
        → Passes k u (HasMaps maps) (refused_with einval (read_reg k u id 0 u.val_at reg_size))
    unfolding Leads HasMaps
    bad_size-Passes maps id reg_size l h a b p same =
        let bytes = encode_reg_access id 0 u.val_at reg_size in
        let m = filled k u reg_access_size u.ra_at bytes p in
        let read =
          decode-encode_reg_access id 0 u.val_at reg_size l (omega arith)
            (omega (arith, host.val_fits)) h in
        let sized : (decode_reg_access bytes).reg_size ≡ reg_size = ap (λ r. r.reg_size) read in
        let call =
          ioctl_bad_size k m (dbg_read_reg k) u.ra_at bytes (inl refl) (host.copied _ _ bytes _)
            (rw sized a) (rw sized b) in
        rw (read_refused k u id 0 u.val_at reg_size einval p m (omega arith) (omega arith) call)
          (refl, same)

    -- A reservation call on a group that does not exist, or an index beyond the group
    pub bad_resource-Passes :
        (maps : ℕ → MapInfo) (cmd grp index : ℕ)
        → (cmd == dbg_read_reg k || cmd == dbg_write_reg k) ≡ false
        → grp < 2 ^ 32
        → index < 2 ^ 32
        → ((rr : ResourceReservation) (m : Machine W)
            → rr.res_index ≡ index
            → reserve_in k cmd rr (group_of_id grp) m ≡ (err (neg einval), m))
        → Passes k u (HasMaps maps) (
            fails_with einval (
              ioctl_with k u cmd resource_reservation_size u.rr_at
                (encode_reservation grp index 0)))
    unfolding Leads HasMaps reg_access_ioctl resource_reserve reserve_copied
    bad_resource-Passes maps cmd grp index other l h refused p same =
        let bytes = encode_reservation grp index 0 in
        let m = filled k u resource_reservation_size u.rr_at bytes p in
        let read = decode-encode_reservation grp index 0 l h (omega arith) in
        let call : reg_access_ioctl k cmd u.rr_at m ≡ (err (neg einval), m) =
          rw (other, host.copied resource_reservation_size u.rr_at bytes p.machine.world)
            (ap (λ rr. reserve_in k cmd rr (group_of_id rr.resource_grp_id) m) read
              ∙ refused (record { resource_grp_id = grp; res_index = index; res_usage = 0 }) m
                  refl) in
        rw (fails-eq k u cmd einval bytes p (omega arith) (omega arith) call) (refl, same)

    pub unknown-Passes :
        (maps : ℕ → MapInfo) (id : ℕ)
        → IsKernel k
        → num_ids ≤ id
        → id < 2 ^ 32
        → Passes k u (HasMaps maps) (refused_with einval (read_reg k u id 0 u.val_at 32))
    unknown-Passes maps id law l h =
        refused_read-Passes maps id 0 einval h (omega arith) (omega arith) (omega arith)
          (λ m e. (access_unknown k m id 0 0 law l).0)

    pub beyond-Passes :
        (maps : ℕ → MapInfo) (id : ℕ)
        → IsKernel k
        → ((j : ℕ) → (maps j).size ≤ 0x100000)
        → id < num_ids
        → Passes k u (HasMaps maps) (refused_with efault (read_reg k u id 0x100000 u.val_at 32))
    beyond-Passes maps id law small l =
        refused_read-Passes maps id 0x100000 efault (omega arith) (omega arith) (omega arith)
          (omega arith)
          (λ m e.
            (access_beyond k m id 0x100000 0 law l
              (omega (arith, small id, ap (λ maps. (maps id).size) e))).0)

    faulted :
        (m : Machine W) (buffer : ℕ)
        → IsMapped k m.maps etm0 0x1000
        → buffer < 2 ^ 32
        → let got = k.ioread32 ((m.maps etm0).base_addr + 0) m.world in
          let put = k.put_user 4 (got.0 % 256 ^ 4) buffer got.1 in
          put.0 ≢ 0
          → read_for_user k
              (record { module_id = etm0; offset = 0; buffer = buffer; reg_size = 32 })
              m
            ≡ (err (neg efault), record m { world = put.1 })
    unfolding read_for_user ls_dbg_read_reg_internal put_value
    faulted m buffer mapped l ne =
        let cut : buffer % 2 ^ 32 ≡ buffer = mod-eq_of_lt l in
        let got = k.ioread32 ((m.maps etm0).base_addr + 0) m.world in
        let bad : ((k.put_user 4 (got.0 % 256 ^ 4) buffer got.1).0 == 0) ≡ false = ground arith in
        rw (read_reg_io-mapped k m etm0 0x1000 0 (omega arith) mapped (omega arith), cut, bad) refl

    -- A read of a mapped register into a buffer that `put_user` refuses
    pub bad_buffer-Passes :
        (maps : ℕ → MapInfo) (buffer : ℕ)
        → IsMapped k maps etm0 0x1000
        → buffer < 2 ^ 32
        → ((v : ℕ) (w : W) → (k.put_user 4 v buffer w).0 ≢ 0)
        → Passes k u (HasMaps maps) (refused_with efault (read_reg k u etm0 0 buffer 32))
    unfolding Leads HasMaps
    bad_buffer-Passes maps buffer mapped l bad p same =
        let bytes = encode_reg_access etm0 0 buffer 32 in
        let m = filled k u reg_access_size u.ra_at bytes p in
        let there : IsMapped k m.maps etm0 0x1000 =
          subst (λ t. IsMapped k t etm0 0x1000) (sym same) mapped in
        let read =
          decode-encode_reg_access etm0 0 buffer 32 (omega arith) (omega arith) (omega arith)
            (omega arith) in
        let call =
          (ioctl_dispatch k m u.ra_at bytes host.write_ne (host.copied _ _ bytes _)
            (inl (ap (λ r. r.reg_size) read))).0 in
        let got = k.ioread32 ((m.maps etm0).base_addr + 0) m.world in
        let put = k.put_user 4 (got.0 % 256 ^ 4) buffer got.1 in
        rw
          (read_refused k u etm0 0 buffer 32 efault p (record m { world = put.1 }) (omega arith)
            (omega arith)
            (call ∙ ap (λ ra. read_for_user k ra m) read ∙ faulted m buffer there l (bad _ _)))
          (refl, same)
