-- ===== src/Process/Environment/Pages.antt =====
-- The shared pages of a new process of src/process.c: copying and mapping them succeeds, and takes a
-- slot of the root task for each page.
use libsel4osapi.Prelude.{
  ℕ, zero, suc, ◌+◌, ◌≤◌, ◌≡◌, ◌≢◌, refl, sym, ap, subst, ◌∙◌, false, not, List, [], ◌∷◌, length,
  ltb, ◌==◌, ==-ne, arith, take,
}
use libsel4osapi.Run.{Returns, returns, Returns-check, bind, mono}
use libsel4osapi.LinkedList.{Ptr}
use libsel4osapi.Process.{Untyped}
use libsel4osapi.Process.Environment.{
  Config, Parent, Shared, Copies, take_slot, copy_pages, map_copies, share_ipc, share_serial,
}

-- What is known of the root task while it fills the environment: how many capabilities it has copied,
-- how many slots it has left at least, and the table of the untypeds.
pub record Stage (copies room : ℕ) (table : List Untyped) (s : Copies) : Type 0 where
  pub copied_eq : length s.copied ≡ copies
  pub slots_le : room ≤ length s.slots
  pub table_eq : s.table ≡ table

pub Stage-of :
    (n n' m m' : ℕ) (t : List Untyped) (s : Copies)
    → n ≡ n'
    → m' ≤ m
    → Stage n m t s
    → Stage n' m' t s
Stage-of n n' m m' t s e le g = record {
  copied_eq = g.copied_eq ∙ e;
  slots_le = omega (arith, g.slots_le);
  table_eq = g.table_eq;
}

-- A buffer that is mapped in the process.
pub record IsShared (buf_size : ℕ) (b : Shared) : Type 0 where
  pub buf_ne : b.buf ≢ 0
  pub size_eq : b.buf_size ≡ buf_size

module _ (mint : ℕ → ℕ) (page_cap : Ptr → ℕ) (map_pages : List ℕ → Ptr) (config : Config)
    (mapped : (p : Ptr) → page_cap p ≢ 0) (maps : (l : List ℕ) → map_pages l ≢ 0) where
  take_slot-Stage :
      (xs : List ℕ) (n m : ℕ) (t : List Untyped) (s : Copies)
      → s.slots ≡ xs
      → Stage n (suc m) t s
      → Returns
          (λ x s'. Stage n m t s' × (s'.notifications ≡ s.notifications))
          (take_slot mint page_cap map_pages config xs s)
  unfolding take_slot
  take_slot-Stage [] n m t s e g = absurd (omega (arith, g.slots_le, ap length e))
  take_slot-Stage (x ∷ xs) n m t s e g = returns (
    record {
      copied_eq = g.copied_eq;
      slots_le = omega (arith, g.slots_le, ap length e);
      table_eq = g.table_eq;
    },
    refl,
  )

  copy_pages-Stage :
      (q : ℕ) (page : Ptr) (n m : ℕ) (t : List Untyped) (s : Copies)
      → Stage n (q + m) t s
      → Returns
          (λ l s'. (length l ≡ q) × Stage n m t s' × (s'.notifications ≡ s.notifications))
          (copy_pages mint page_cap map_pages config q page s)
  unfolding copy_pages
  copy_pages-Stage zero page n m t s g =
      returns (refl, Stage-of n n (0 + m) m t s refl (omega arith) g, refl)
  copy_pages-Stage (suc q) page n m t s g =
      Returns-check _ (not (page_cap page == 0)) s
        (let e = ==-ne (page_cap page) 0 (mapped page) in cc)
        (bind
          (take_slot-Stage s.slots n (q + m) t s refl
            (Stage-of n n (suc q + m) (suc (q + m)) t s refl (omega arith) g))
          λ x s1 (g1, e1).
            bind (copy_pages-Stage q _ n m t s1 g1)
              λ l s2 (d, g2, e2). returns (ap suc d, g2, e2 ∙ e1))

  map_copies-same :
      (q : ℕ) (l : List ℕ) (size : ℕ) (s : Copies)
      → q ≤ length l
      → Returns
          (λ b s'. IsShared size b × (s' ≡ s))
          (map_copies mint page_cap map_pages config q l size s)
  unfolding map_copies
  map_copies-same q l size s le =
      let enough : ltb (length l) q ≡ false = ground arith in
      rw (enough, ==-ne (map_pages (take q l)) 0 (maps (take q l)))
        (returns (record { buf_ne = maps (take q l); size_eq = refl }, refl))

  pub share_ipc-Stage :
      (p : Parent) (n m : ℕ) (t : List Untyped) (s : Copies)
      → config.rx_pages ≤ config.tx_pages
      → Stage n (config.rx_pages + (config.tx_pages + m)) t s
      → Returns
          (λ (rx, tx) s'.
            IsShared config.rx_buf_size rx
            × IsShared config.tx_buf_size tx
            × Stage n m t s'
            × (s'.notifications ≡ s.notifications))
          (share_ipc mint page_cap map_pages config p s)
  unfolding share_ipc
  share_ipc-Stage p n m t s le g =
      bind (copy_pages-Stage config.rx_pages p.ipc_rx_buf n (config.tx_pages + m) t s g)
        λ l s1 (d, g1, e1).
          bind (copy_pages-Stage config.tx_pages p.ipc_tx_buf n m t s1 g1) λ l' s2 (d', g2, e2).
            bind (map_copies-same config.rx_pages l config.rx_buf_size s2 (omega (arith, d)))
              λ b s3 (shared, same).
                bind
                  (map_copies-same config.rx_pages l' config.tx_buf_size s3 (omega (arith, d', le)))
                  λ b' s4 (shared', same'). returns (
                    subst
                      (λ z.
                        IsShared config.rx_buf_size b
                        × IsShared config.tx_buf_size b'
                        × Stage n m t z
                        × (z.notifications ≡ s.notifications))
                      (sym (same' ∙ same)) (shared, shared', g2, e2 ∙ e1))

  pub share_serial-Stage :
      (p : Parent) (n m : ℕ) (t : List Untyped) (s : Copies)
      → Stage n (config.serial_pages + m) t s
      → Returns
          (λ b s'.
            IsShared config.serial_buf_size b
            × Stage n m t s'
            × (s'.notifications ≡ s.notifications))
          (share_serial mint page_cap map_pages config p s)
  unfolding share_serial
  share_serial-Stage p n m t s g =
      bind (copy_pages-Stage config.serial_pages p.serial_buf n m t s g) λ l s1 (d, g1, e1).
        mono (map_copies-same config.serial_pages l config.serial_buf_size s1 (omega (arith, d)))
          λ b s2 (shared, same).
            subst
              (λ z.
                IsShared config.serial_buf_size b
                × Stage n m t z
                × (z.notifications ≡ s.notifications))
              (sym same) (shared, g1, e1)
