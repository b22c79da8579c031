-- ===== src/Client/Calls.antt =====
-- What one call of the test program does to the driver.
use ls_dbg.Prelude.{
  ℕ, ◌-◌, ◌^◌, ◌<◌, ◌≡◌, ◌≢◌, inl, refl, arith, ◌==◌, ◌||◌, some, false, not, if◌then◌else◌,
}
use ls_dbg.Memory.{Memory, store, load-store_self, load-store_disjoint}
use ls_dbg.Kernel.{Kernel, Machine, Outcome, ok, err, hang, neg}
use ls_dbg.Reservation.{
  decode_reservation, resource_reservation_size, res_reserve, res_relinq, res_get_usage,
}
use ls_dbg.Ioctl.{decode_reg_access, reg_access_size, dbg_read_reg, dbg_write_reg, reg_access_ioctl}
use ls_dbg.Client.{
  Locals, Process, Reply, go, failed, stuck, Program, go_on, ◌>>◌, encode_reservation,
  encode_reg_access, returned, is_negative, fail_unless, ioctl_with, read_reg, fails_with,
  refused_with,
}

-- The driver finds in a structure what the program has put there.
pub decode-encode_reservation :
    (grp index usage : ℕ)
    → grp < 2 ^ 32
    → index < 2 ^ 32
    → usage < 2 ^ 32
    → decode_reservation (encode_reservation grp index usage)
      ≡ record { resource_grp_id = grp; res_index = index; res_usage = usage }
unfolding decode_reservation encode_reservation
decode-encode_reservation grp index usage l h r =
    let none : Memory = λ x. 0 in
    let one = store 4 none 0 grp in
    let two = store 4 one 4 index in
    rw
      (
        load-store_disjoint 4 4 two 8 0 usage (inl (omega arith)),
        load-store_disjoint 4 4 one 4 0 index (inl (omega arith)),
        load-store_self 4 none 0 grp l,
        load-store_disjoint 4 4 two 8 4 usage (inl (omega arith)),
        load-store_self 4 one 4 index h,
        load-store_self 4 two 8 usage r,
      )
      refl

pub decode-encode_reg_access :
    (id offset buffer reg_size : ℕ)
    → id < 2 ^ 32
    → offset < 2 ^ 32
    → buffer < 2 ^ 64
    → reg_size < 2 ^ 32
    → decode_reg_access (encode_reg_access id offset buffer reg_size)
      ≡ record { module_id = id; offset = offset; buffer = buffer; reg_size = reg_size }
unfolding decode_reg_access encode_reg_access
decode-encode_reg_access id offset buffer reg_size l h r q =
    let none : Memory = λ x. 0 in
    let one = store 4 none 0 id in
    let two = store 4 one 4 offset in
    let three = store 8 two 8 buffer in
    rw
      (
        load-store_disjoint 4 4 three 16 0 reg_size (inl (omega arith)),
        load-store_disjoint 4 8 two 8 0 buffer (inl (omega arith)),
        load-store_disjoint 4 4 one 4 0 offset (inl (omega arith)),
        load-store_self 4 none 0 id l,
        load-store_disjoint 4 4 three 16 4 reg_size (inl (omega arith)),
        load-store_disjoint 4 8 two 8 4 buffer (inl (omega arith)),
        load-store_self 4 one 4 offset h,
        load-store_disjoint 8 4 three 16 8 reg_size (inl (omega arith)),
        load-store_self 8 two 8 buffer r,
        load-store_self 4 three 16 reg_size q,
      )
      refl

-- An assertion that the wrapper's result is not negative, after a call that ends
pub answered :
    {W : Type 0} (P : Machine W → Type 0) (errno : ℕ) (r : Outcome (Unit {0}) × Machine W)
    → r.0 ≢ hang
    → P r.1
    → let q =
        go_on
          (go_on (returned errno r) (λ ret p. (go (if is_negative ret then 0 else 1), p)))
          (λ ret. fail_unless (λ p. not (is_negative ret))) in
      (q.0 ≡ go tt) × P q.1.machine
answered P errno (ok a, m) ends h = (refl, h)
answered P errno (err e, m) ends h = (refl, h)
answered P errno (hang, m) ends h = absurd (ends refl)

module _ {W : Type 0} (k : Kernel W) (u : Locals W) where
  -- A structure that the program has just filled is what `copy_from_user` finds; the ioctl numbers
  -- are distinct.
  pub record IsHosted : Type 0 where
    pub copied :
        (n a : ℕ) (bytes : Memory) (w : W) → k.copy_from_user n a (u.poke n a bytes w) ≡ some bytes
    pub reserve_ne : (res_reserve k == dbg_read_reg k || res_reserve k == dbg_write_reg k) ≡ false
    pub relinq_ne : (res_relinq k == dbg_read_reg k || res_relinq k == dbg_write_reg k) ≡ false
    pub usage_ne : (res_get_usage k == dbg_read_reg k || res_get_usage k == dbg_write_reg k) ≡ false
    pub usage_ne_reserve : res_get_usage k ≢ res_reserve k
    pub usage_ne_relinq : res_get_usage k ≢ res_relinq k
    pub write_ne : dbg_write_reg k ≢ dbg_read_reg k
    pub val_fits : u.val_at < 2 ^ 32
    pub val64_fits : u.val64_at < 2 ^ 32

  -- From a process of which `P` holds, the test passes, and `Q` holds then.
  unfoldable pub Leads : (Process W → Type 0) → (Process W → Type 0) → Program W (Unit {0}) → Type 0
  Leads P Q t = (p : Process W) → P p → ((t p).0 ≡ go tt) × Q (t p).1

  abbrev pub Passes : (Process W → Type 0) → Program W (Unit {0}) → Type 0
  Passes P t = Leads P P t

  go_on-Leads :
      (P Q : Process W → Type 0) (r : Reply (Unit {0}) × Process W) (v : Program W (Unit {0}))
      → r.0 ≡ go tt
      → P r.1
      → Leads P Q v
      → ((go_on r (λ s. v)).0 ≡ go tt) × Q (go_on r (λ s. v)).1
  unfolding Leads
  go_on-Leads P Q (go a, p) v e h two = two p h
  go_on-Leads P Q (failed, p) v e h two = cc
  go_on-Leads P Q (stuck, p) v e h two = cc

  pub Leads-then :
      (P Q R : Process W → Type 0) (t v : Program W (Unit {0}))
      → Leads P Q t
      → Leads Q R v
      → Leads P R (t >> v)
  unfolding Leads
  Leads-then P Q R t v one two p h = let (e, now) = one p h in go_on-Leads Q R (t p) v e now two

  pub Passes-both :
      (P : Process W → Type 0) (t v : Program W (Unit {0}))
      → Passes P t
      → Passes P v
      → Passes P (t >> v)
  Passes-both P = Leads-then P P P

  -- The machine of a call: the structure is filled.
  abbrev pub filled : ℕ → ℕ → Memory → Process W → Machine W
  filled size addr bytes p = record (p.machine) { world = u.poke size addr bytes p.machine.world }

  pub read_refused :
      (id offset buffer reg_size code : ℕ) (p : Process W) (n : Machine W)
      → 0 < code
      → code < 4096
      → let bytes = encode_reg_access id offset buffer reg_size in
        let m = filled reg_access_size u.ra_at bytes p in
        reg_access_ioctl k (dbg_read_reg k) u.ra_at m ≡ (err (neg code), n)
        → refused_with code (read_reg k u id offset buffer reg_size) p
          ≡ (go tt, record { machine = n; errno = code })
  unfolding refused_with read_reg ioctl_with
  read_refused id offset buffer reg_size code p n l h e =
      let same : (2 ^ 32 - neg code) ≡ code = omega arith in rw (e, same) (ground arith)

  pub fails-eq :
      (cmd code : ℕ) (bytes : Memory) (p : Process W)
      → 0 < code
      → code < 4096
      → let m = filled resource_reservation_size u.rr_at bytes p in
        reg_access_ioctl k cmd u.rr_at m ≡ (err (neg code), m)
        → fails_with code (ioctl_with k u cmd resource_reservation_size u.rr_at bytes) p
          ≡ (go tt, record { machine = m; errno = code })
  unfolding fails_with ioctl_with
  fails-eq cmd code bytes p l h e =
      let same : (2 ^ 32 - neg code) ≡ code = omega arith in rw (e, same) (ground arith)
