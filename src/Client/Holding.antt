-- ===== src/Client/Holding.antt =====
-- What the test program's reservation calls do to the reservation register of the EPU's counters.
use ls_dbg.Prelude.{
  ℕ, ◌^◌, ◌<◌, ◌≡◌, ◌≢◌, refl, ◌∙◌, ap, sym, arith, ◌==◌, true, false, bit_or, bit_and, subst,
}
use ls_dbg.Bits.{bit, complement32}
use ls_dbg.Memory.{Memory}
use ls_dbg.Kernel.{Driver, Kernel, Machine, Outcome, ok, err, neg, eperm, ebusy, reg_acc_locked}
use ls_dbg.TraceIp.{epu}
use ls_dbg.RegAccess.Tables.{IsMapped}
use ls_dbg.Reservation.{
  epu_counter, resource_reservation_size, group_of_id, group_size, res_reserve, res_relinq,
  reservation_at, reserve_bit, relinquish_bit,
}
use ls_dbg.Reservation.Bits.{IsWord, reserve_busy, reserve_free, relinquish_busy, relinquish_free}
use ls_dbg.Reservation.Spec.{Request, reserve, relinquish}
use ls_dbg.Reservation.Refine.{AreDistinct, request, reserve_call, relinquish_call}
use ls_dbg.Reservation.Ioctl.{command, index_of, ioctl_request}
use ls_dbg.Ioctl.{dbg_read_reg, dbg_write_reg, reg_access_ioctl}
use ls_dbg.Client.{
  Locals, Process, Program, go, encode_reservation, ioctl_with, reserve_res, release_res, ◌>>◌,
  fails_with, succeeds, clear_errno,
}
use ls_dbg.Client.Calls.{decode-encode_reservation, IsHosted, Leads, filled, fails-eq}

module _ {W : Type 0} (k : Kernel W) (u : Locals W) (base : ℕ) (reg : W → ℕ) where
  -- The reservation register of the EPU's counters at `base`, and the program's memory: the register
  -- is a plain word that writing a local variable does not change; what `put_user` writes to `val`
  -- is read there.
  pub record IsBoard : Type 0 where
    pub word : IsWord k (reservation_at k base epu_counter) reg
    pub poke_keeps : (n a : ℕ) (bytes : Memory) (w : W) → reg (u.poke n a bytes w) ≡ reg w
    pub put_ok : (v : ℕ) (w : W) → (k.put_user 4 v u.val_at w).0 ≡ 0
    pub put_keeps : (v : ℕ) (w : W) → reg (k.put_user 4 v u.val_at w).1 ≡ reg w
    pub put_read :
        (v : ℕ) (w : W) → v < 2 ^ 32 → u.peek 4 u.val_at (k.put_user 4 v u.val_at w).1 ≡ v
    pub val_there : u.val_at ≢ 0

  -- The register holds `v`, the driver is ready for calls on the EPU, and `errno` is clear.
  pub record Holding (v : ℕ) (p : Process W) : Type 0 where
    pub now : reg p.machine.world ≡ v
    pub free : p.machine.reg_acc_lock ≡ false
    pub ptr : p.machine.epu_ptr ≡ base
    pub maps : IsMapped k p.machine.maps epu 0x1000
    pub at : (p.machine.maps epu).base_addr ≡ base
    pub no_error : p.errno ≡ 0

  module _ (host : IsHosted k u) (distinct : AreDistinct k) (law : IsBoard) where
    command_ne : (r : Request) → (command k r ≢ dbg_read_reg k) × (command k r ≢ dbg_write_reg k)
    command_ne (reserve i) = let e = host.reserve_ne in (ground arith, ground arith)
    command_ne (relinquish i) = let e = host.relinq_ne in (ground arith, ground arith)

    -- A reservation call's request to the driver
    asked :
        (r : Request) (p : Process W)
        → index_of k r < 2 ^ 32
        → let m =
            filled k u resource_reservation_size u.rr_at
              (encode_reservation 0 (index_of k r) 0)
              p in
          reg_access_ioctl k (command k r) u.rr_at m ≡ request k epu_counter r m
    unfolding group_of_id
    asked r p l =
        let bytes = encode_reservation 0 (index_of k r) 0 in
        let m = filled k u resource_reservation_size u.rr_at bytes p in
        let read = decode-encode_reservation 0 (index_of k r) 0 (omega arith) l (omega arith) in
        ioctl_request k epu_counter r m u.rr_at bytes distinct (command_ne r).0 (command_ne r).1
          (host.copied _ _ bytes _) (ap (λ rr. group_of_id rr.resource_grp_id) read)
          (ap (λ rr. rr.res_index) read)

    pub epu_counter-IsWord :
        (v : ℕ) (p : Process W)
        → Holding v p
        → IsWord k (reservation_at k p.machine.epu_ptr epu_counter) reg
    epu_counter-IsWord v p h =
        subst (λ b. IsWord k (reservation_at k b epu_counter) reg) (sym h.ptr) law.word

    -- A call after which only the world is another one
    pub moved :
        (v v' : ℕ) (p : Process W) (w : W)
        → Holding v p
        → reg w ≡ v'
        → Holding v' (record p { machine = record (p.machine) { world = w } })
    moved v v' p w h e = record {
      now = e;
      free = h.free;
      ptr = h.ptr;
      maps = h.maps;
      at = h.at;
      no_error = h.no_error;
    }

    -- A section under the lock, entered with the lock free
    locked :
        (body : Driver W (Unit {0})) (m : Machine W) (o : Outcome (Unit {0})) (w : W)
        → m.reg_acc_lock ≡ false
        → body (record m { reg_acc_lock = true }) ≡ (o, record m { reg_acc_lock = true; world = w })
        → reg_acc_locked body m ≡ (o, record m { world = w })
    unfolding reg_acc_locked
    locked body m o w free e = rw (free, e) refl

    succeeds_with :
        (cmd v v' : ℕ) (bytes : Memory) (p : Process W) (w : W)
        → Holding v p
        → let m = filled k u resource_reservation_size u.rr_at bytes p in
          reg_access_ioctl k cmd u.rr_at m ≡ (ok tt, record m { world = w })
          → reg w ≡ v'
          → let r = succeeds (ioctl_with k u cmd resource_reservation_size u.rr_at bytes) p in
            (r.0 ≡ go tt) × Holding v' r.1
    unfolding succeeds ioctl_with
    succeeds_with cmd v v' bytes p w h e now =
        let clear : (p.errno == 0) ≡ true = let z = h.no_error in ground arith in
        rw (e, clear) (refl, moved v v' p w h now)

    pub reserve-Leads :
        (v i : ℕ)
        → i < 32
        → bit v i ≡ 0
        → bit_or v (2 ^ i) < 2 ^ 32
        → Leads k u (Holding v) (Holding (bit_or v (2 ^ i))) (succeeds (reserve_res k u 0 i))
    unfolding Leads reserve_res group_size
    reserve-Leads v i l b fits p h =
        let bytes = encode_reservation 0 i 0 in
        let m = filled k u resource_reservation_size u.rr_at bytes p in
        let word = epu_counter-IsWord v p h in
        let same : reg m.world ≡ v = law.poke_keeps _ _ bytes _ ∙ h.now in
        let w =
          k.iowrite32 (bit_or (reg m.world) (2 ^ i)) (reservation_at k m.epu_ptr epu_counter)
            m.world in
        let e : reg_access_ioctl k (res_reserve k) u.rr_at m ≡ (ok tt, record m { world = w }) =
          asked (reserve i) p (omega arith)
          ∙ reserve_call k reg epu_counter m word i l h.free
          ∙ locked (reserve_bit k (reservation_at k m.epu_ptr epu_counter) (2 ^ i)) m (ok tt) w
              h.free
              (reserve_free k (reservation_at k m.epu_ptr epu_counter) reg word
                (record m { reg_acc_lock = true }) i (rw same b)) in
        succeeds_with (res_reserve k) v (bit_or v (2 ^ i)) bytes p w h e
          (word.write _ _ (rw same fits) ∙ rw same refl)

    pub release-Leads :
        (v i : ℕ)
        → i < 32
        → bit v i ≡ 1
        → bit_and v (complement32 (2 ^ i)) < 2 ^ 32
        → Leads k u
            (Holding v)
            (Holding (bit_and v (complement32 (2 ^ i))))
            (succeeds (release_res k u 0 i))
    unfolding Leads release_res group_size
    release-Leads v i l b fits p h =
        let bytes = encode_reservation 0 i 0 in
        let m = filled k u resource_reservation_size u.rr_at bytes p in
        let word = epu_counter-IsWord v p h in
        let same : reg m.world ≡ v = law.poke_keeps _ _ bytes _ ∙ h.now in
        let w =
          k.iowrite32 (bit_and (reg m.world) (complement32 (2 ^ i)))
            (reservation_at k m.epu_ptr epu_counter) m.world in
        let e : reg_access_ioctl k (res_relinq k) u.rr_at m ≡ (ok tt, record m { world = w }) =
          asked (relinquish i) p (omega arith)
          ∙ relinquish_call k reg epu_counter m word i distinct l h.free
          ∙ locked (relinquish_bit k (reservation_at k m.epu_ptr epu_counter) (2 ^ i)) m (ok tt) w
              h.free
              (relinquish_busy k (reservation_at k m.epu_ptr epu_counter) reg word
                (record m { reg_acc_lock = true }) i (rw same b)) in
        succeeds_with (res_relinq k) v (bit_and v (complement32 (2 ^ i))) bytes p w h e
          (word.write _ _ (rw same fits) ∙ rw same refl)

    -- A refused call leaves the register as it is; then `errno` is cleared.
    pub refused_with_then :
        (cmd code v : ℕ) (bytes : Memory) (rest : Program W (Unit {0})) (v' : ℕ)
        → 0 < code
        → code < 4096
        → ((p : Process W)
            → Holding v p
            → let m = filled k u resource_reservation_size u.rr_at bytes p in
              reg_access_ioctl k cmd u.rr_at m ≡ (err (neg code), m))
        → Leads k u (Holding v) (Holding v') rest
        → Leads k u (Holding v) (Holding v') (
            fails_with code (ioctl_with k u cmd resource_reservation_size u.rr_at bytes)
            >> (clear_errno >> rest))
    unfolding Leads
    refused_with_then cmd code v bytes rest v' a b refused next p h =
        let m = filled k u resource_reservation_size u.rr_at bytes p in
        rw (fails-eq k u cmd code bytes p a b (refused p h)) (
          next (record { machine = m; errno = 0 })
            (record {
              now = law.poke_keeps _ _ bytes _ ∙ h.now;
              free = h.free;
              ptr = h.ptr;
              maps = h.maps;
              at = h.at;
              no_error = refl;
            }))

    pub reserve_taken :
        (v i : ℕ) (p : Process W)
        → i < 32
        → bit v i ≡ 1
        → Holding v p
        → let m = filled k u resource_reservation_size u.rr_at (encode_reservation 0 i 0) p in
          reg_access_ioctl k (res_reserve k) u.rr_at m ≡ (err (neg ebusy), m)
    unfolding group_size
    reserve_taken v i p l b h =
        let bytes = encode_reservation 0 i 0 in
        let m = filled k u resource_reservation_size u.rr_at bytes p in
        let word = epu_counter-IsWord v p h in
        let same : reg m.world ≡ v = law.poke_keeps _ _ bytes _ ∙ h.now in
        asked (reserve i) p (omega arith)
        ∙ reserve_call k reg epu_counter m word i l h.free
        ∙ locked (reserve_bit k (reservation_at k m.epu_ptr epu_counter) (2 ^ i)) m
            (err (neg ebusy)) m.world h.free
            (reserve_busy k (reservation_at k m.epu_ptr epu_counter) reg word
              (record m { reg_acc_lock = true }) i (rw same b))

    pub release_free :
        (v i : ℕ) (p : Process W)
        → i < 32
        → bit v i ≡ 0
        → Holding v p
        → let m = filled k u resource_reservation_size u.rr_at (encode_reservation 0 i 0) p in
          reg_access_ioctl k (res_relinq k) u.rr_at m ≡ (err (neg eperm), m)
    unfolding group_size
    release_free v i p l b h =
        let bytes = encode_reservation 0 i 0 in
        let m = filled k u resource_reservation_size u.rr_at bytes p in
        let word = epu_counter-IsWord v p h in
        let same : reg m.world ≡ v = law.poke_keeps _ _ bytes _ ∙ h.now in
        asked (relinquish i) p (omega arith)
        ∙ relinquish_call k reg epu_counter m word i distinct l h.free
        ∙ locked (relinquish_bit k (reservation_at k m.epu_ptr epu_counter) (2 ^ i)) m
            (err (neg eperm)) m.world h.free
            (relinquish_free k (reservation_at k m.epu_ptr epu_counter) reg word
              (record m { reg_acc_lock = true }) i (rw same b))
