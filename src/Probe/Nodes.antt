-- ===== src/Probe/Nodes.antt =====
-- The devices that `add_compatible_devices` adds, and the entries of the map table that it fills.
use ls_dbg.Prelude.{
  ℕ, suc, ◌+◌, ◌≤◌, ◌<◌, ◌≡◌, ◌≢◌, ◌∙◌, ◌⊎◌, String, refl, inl, inr, Bool-cases, arith, List, [],
  ◌∷◌,
}
use ls_dbg.Kernel.{Kernel, Machine}
use ls_dbg.RegAccess.{reg_add_map}
use ls_dbg.Debugfs.{Debugfs}
use ls_dbg.Probe.{Platform, Registry, Kind, map_range, add_device, add_nodes}

pub length : {A : Type 0} → List A → ℕ
length [] = 0
length (x ∷ xs) = suc (length xs)

module _ {W : Type 0} (k : Kernel W) (p : Platform W) (d : Debugfs W) where
  pub map_range_others :
      (np id i : ℕ) (m : Machine W) (j : ℕ)
      → j ≢ id
      → (map_range k p d np id i m).1.maps j ≡ m.maps j
  unfolding map_range reg_add_map
  map_range_others np id i m j ne = ground arith

  add_device_others :
      (name : String) (id : ℕ) (kind : Kind) (index np : ℕ) (m : Machine W) (j : ℕ)
      → j ≢ id + index
      → j ≢ id + index + 1
      → (add_device k p d name id kind index np m).1.maps j ≡ m.maps j
  unfolding add_device
  add_device_others name id kind index np m j ne ne' =
      map_range_others np (id + index + 1) 1 (map_range k p d np (id + index + 0) 0 m).1 j ne'
      ∙ map_range_others np (id + index + 0) 0 m j (omega arith)

  add_device_outside :
      (name : String) (id : ℕ) (kind : Kind) (index np n : ℕ) (m : Machine W) (j : ℕ)
      → index + 1 ≤ n
      → (j < id + index) ⊎ (id + n < j)
      → (add_device k p d name id kind index np m).1.maps j ≡ m.maps j
  add_device_outside name id kind index np n m j l (inl h) =
      add_device_others name id kind index np m j (omega arith) (omega arith)
  add_device_outside name id kind index np n m j l (inr h) =
      add_device_others name id kind index np m j (omega arith) (omega arith)

  -- `now` has one device more than `old` for each index from `index` below `n`, and its map table is
  -- that of `old` outside the ids from `id + index` up to `id + n`.
  pub record IsAdded (id index n : ℕ) (old now : Registry W) : Type 0 where
    pub counted : length now.dbg_devs + index ≡ length old.dbg_devs + n
    pub others : (j : ℕ) → (j < id + index) ⊎ (id + n < j) → now.machine.maps j ≡ old.machine.maps j

  outside_weaken :
      (j id index n : ℕ) → (j < id + index) ⊎ (id + n < j) → (j < id + (index + 1)) ⊎ (id + n < j)
  outside_weaken j id index n (inl h) = inl (omega arith)
  outside_weaken j id index n (inr h) = inr h

  -- The loop over the nodes adds as many devices as the function returns, less the index it starts
  -- with: at most one for each node. The map table keeps every entry outside the ids from the first
  -- to the one behind the last of the devices'.
  pub add_nodes-IsAdded :
      (name : String) (id : ℕ) (kind : Kind) (index : ℕ) (nps : List ℕ) (r : Registry W)
      → let (n, r') = add_nodes k p d name id kind index nps r in
        (index ≤ n) × (n ≤ index + length nps) × IsAdded id index n r r'
  unfolding add_nodes length
  add_nodes-IsAdded name id kind index [] r =
      (omega arith, omega arith, record { counted = refl; others = λ j h. refl })
  add_nodes-IsAdded name id kind index (np ∷ nps) r =
      elim (Bool-cases (p.kzalloc r.machine.world).0) [
        | inl t ↦
            let m : Machine W = record (r.machine) { world = (p.kzalloc r.machine.world).1 } in
            let added = add_device k p d name id kind index np m in
            let r1 : Registry W = record r { machine = added.1; dbg_devs = added.0 ∷ r.dbg_devs } in
            let n = (add_nodes k p d name id kind (index + 1) nps r1).0 in
            let (first, last, rest) = add_nodes-IsAdded name id kind (index + 1) nps r1 in
            rw (t, add_nodes)
              (
                omega arith,
                omega arith,
                record {
                  counted = let e = rest.counted in omega arith;
                  others = λ j h.
                      rest.others j (outside_weaken j id index n h)
                      ∙ add_device_outside name id kind index np n m j first h;
                },
              )
        | inr f ↦
            let (first, last, rest) = add_nodes-IsAdded name id kind index nps (record r {
              machine = record (r.machine) { world = (p.kzalloc r.machine.world).1 };
            }) in
            rw (f, add_nodes)
              (first, omega arith, record { counted = rest.counted; others = rest.others })
      ]
