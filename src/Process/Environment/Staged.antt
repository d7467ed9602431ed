-- ===== src/Process/Environment/Staged.antt =====
-- The parts of sel4osapi_process_init_env of src/process.c: in which slots of the process the copies of
-- the capabilities lie.
use libsel4osapi.Prelude.{
  ltb_of-lt, ℕ, suc, ◌+◌, ◌%◌, ◌^◌, ◌≤◌, ◌<◌, ◌≡◌, ◌≢◌, refl, ap, ◌∙◌, true, false, inl, inr, ◌⊎◌,
  List, [], ◌∷◌, map, length, length-append, leb, ◌==◌, ==-ne, arith, Bool-cases,
}
use libsel4osapi.Run.{Returns, returns, Returns-check, bind, mono, pure}
use libsel4osapi.LinkedList.{Ptr}
use libsel4osapi.Process.{Untyped, Grant, no_grant, assign}
use libsel4osapi.Process.Granted.{length-assign, assign-count}
use libsel4osapi.Process.Restore.{assigned}
use libsel4osapi.Process.Environment.Pages.{IsShared, Stage, share_ipc-Stage, share_serial-Stage}
use libsel4osapi.Process.Environment.{
  Config, Parent, Copies, copy_cap_into, copy_untypeds, take_notification, range_size,
  grant_untypeds, idle_copy, free_slots, Objects, Links, copy_objects, link_services,
}

length-map : {A B : Type 0} (f : A → B) (xs : List A) → length (map f xs) ≡ length xs
length-map f [] = refl
length-map f (x ∷ xs) = ap suc (length-map f xs)

leb_of-range : (r c t : ℕ) → c ≤ t → 0 < t → (r ≤ c) ⊎ (r ≡ 1) → leb r t ≡ true
leb_of-range r c t le some_ut (inl few) = ground arith
leb_of-range r c t le some_ut (inr one) = ground arith

-- The table and the grant after the loop over the untypeds, which copies from the third slot on.
abbrev pub granted : (mint : ℕ → ℕ) → Config → (pid : ℕ) → List Untyped → List Untyped × Grant
granted mint config pid us = assign (λ k. mint (2 + k)) config.mem_size pid 0 us no_grant

-- The copies lie in the first slots from `base` on, and the untypeds are granted from the table `us`.
pub record IsPlaced (mint : ℕ → ℕ) (config : Config) (base pid : ℕ) (us : List Untyped)
    (o : Objects) : Type 0 where
  pub grant_eq : o.untypeds ≡ (granted mint config pid us).1
  pub count_le : o.untypeds.untyped_count ≤ length us
  pub untypeds_below :
      o.untypeds.untyped_count ≢ 0 → o.untypeds.end < base + (2 + o.untypeds.untyped_count)
  pub pd_eq : o.page_directory ≡ base + 0
  pub tcb_eq : o.tcb ≡ base + 1
  pub clock_eq : o.sysclock_server_ep ≡ base + (2 + o.untypeds.untyped_count)
  pub idle_eq : o.idling_aep ≡ base + suc (2 + o.untypeds.untyped_count)

-- The buffers are mapped, and the copies lie in three slots behind the first `n`.
pub record IsLinked (config : Config) (base n : ℕ) (l : Links) : Type 0 where
  pub rx_shared : IsShared config.rx_buf_size l.rx
  pub tx_shared : IsShared config.tx_buf_size l.tx
  pub serial_shared : IsShared config.serial_buf_size l.serial
  pub op_eq : l.stack_op_ep ≡ base + n
  pub ser_eq : l.serial_server_ep ≡ base + suc n
  pub fault_eq : l.fault_endpoint ≡ base + suc (suc n)

module _ (mint : ℕ → ℕ) (page_cap : Ptr → ℕ) (map_pages : List ℕ → Ptr) (config : Config) (base : ℕ)
    (consecutive : (k : ℕ) → mint k ≡ base + k) (base_ne : base ≢ 0)
    (mapped : (p : Ptr) → page_cap p ≢ 0) (maps : (l : List ℕ) → map_pages l ≢ 0) where
  copy_cap_into-Stage :
      (pid source n m : ℕ) (t : List Untyped) (s : Copies)
      → Stage n m t s
      → Returns
          (λ c s'. (c ≡ base + n) × Stage (suc n) m t s' × (s'.notifications ≡ s.notifications))
          (copy_cap_into mint page_cap map_pages config pid source s)
  unfolding copy_cap_into
  copy_cap_into-Stage pid source n m t s g =
      let slot : mint (length s.copied) ≡ base + n =
        consecutive (length s.copied) ∙ ap (λ k. base + k) g.copied_eq in
      let given : (mint (length s.copied) == 0) ≡ false =
        ==-ne _ 0 (omega (arith, slot, base_ne)) in
      rw given (
        returns (
          slot,
          record {
            copied_eq = length-append s.copied ((source, pid) ∷ []) ∙ omega (arith, g.copied_eq);
            slots_le = g.slots_le;
            table_eq = g.table_eq;
          },
          refl,
        ))

  abbrev granted_at : (pid n : ℕ) → List Untyped → List Untyped × Grant
  granted_at pid n us = assign (λ k. mint (n + k)) config.mem_size pid 0 us no_grant

  copy_untypeds-Stage :
      (pid : ℕ) (user_untypeds : ℕ → ℕ) (n m : ℕ) (t : List Untyped) (s : Copies)
      → length t < 2 ^ 8
      → Stage n m t s
      → Returns
          (λ g s'.
            (g ≡ (granted_at pid n t).1)
            × (g.untyped_count ≤ length t)
            × (g.untyped_count ≢ 0 → g.end < base + (n + g.untyped_count))
            × ((range_size mint page_cap map_pages config g ≤ g.untyped_count)
                ⊎ (range_size mint page_cap map_pages config g ≡ 1))
            × Stage (n + g.untyped_count) m (granted_at pid n t).0 s'
            × (s'.notifications ≡ s.notifications))
          (copy_untypeds mint page_cap map_pages config pid user_untypeds s)
  unfolding copy_untypeds
  copy_untypeds-Stage pid user_untypeds n m t s small g =
      let mint' : ℕ → ℕ = λ k. mint (n + k) in
      let step : (k : ℕ) → mint' k ≡ mint' 0 + k =
        λ k. omega (arith, consecutive (n + k), consecutive (n + 0)) in
      let first : mint' 0 ≡ base + n = consecutive (n + 0) ∙ omega arith in
      let a = assigned mint' config.mem_size step pid t (omega arith) in
      let r = a.range in
      let given = (granted_at pid n t).1 in
      rw (g.copied_eq, g.table_eq)
        (returns (
          refl,
          omega (arith, assign-count mint' config.mem_size pid 0 t no_grant),
          λ c. omega (arith, r.end_eq c, first),
          range_of given (mint' 0) r.start_eq r.end_eq r.none_eq,
          record {
            copied_eq =
                length-append s.copied (map (λ i. (user_untypeds i, pid)) given.untyped_indices)
                ∙ omega (
                  arith,
                  g.copied_eq,
                  r.count_eq,
                  length-map {B = ℕ × ℕ} (λ i. (user_untypeds i, pid)) given.untyped_indices,
                );
            slots_le = g.slots_le;
            table_eq = refl;
          },
          refl,
        ))
    where
      range_of :
          (g : Grant) (b : ℕ)
          → (g.untyped_count ≢ 0 → g.start ≡ b)
          → (g.untyped_count ≢ 0 → suc g.end ≡ b + g.untyped_count)
          → (g.untyped_count ≡ 0 → g.end ≡ g.start)
          → (range_size mint page_cap map_pages config g ≤ g.untyped_count)
            ⊎ (range_size mint page_cap map_pages config g ≡ 1)
      range_of g b x y z = elim (Bool-cases (g.untyped_count == 0)) [
        | inl none_left ↦ inr (let c : g.untyped_count ≡ 0 = ground arith in omega (arith, z c))
        | inr some_left ↦
            inl (let c : g.untyped_count ≢ 0 = ground arith in omega (arith, x c, y c))
      ]

  grant_untypeds-Stage :
      (pid : ℕ) (user_untypeds : ℕ → ℕ) (n m : ℕ) (t : List Untyped) (s : Copies)
      → length t < 2 ^ 8
      → 0 < length t
      → Stage n m t s
      → Returns
          (λ g s'.
            (g ≡ (granted_at pid n t).1)
            × (g.untyped_count ≤ length t)
            × (g.untyped_count ≢ 0 → g.end < base + (n + g.untyped_count))
            × Stage (n + g.untyped_count) m (granted_at pid n t).0 s'
            × (s'.notifications ≡ s.notifications))
          (grant_untypeds mint page_cap map_pages config pid user_untypeds s)
  unfolding grant_untypeds
  grant_untypeds-Stage pid user_untypeds n m t s small some_ut i =
      let kept = length-assign (λ k. mint (n + k)) config.mem_size pid 0 t no_grant in
      bind (copy_untypeds-Stage pid user_untypeds n m t s small i)
        λ g s' (same, count, below, range, i', e).
          Returns-check (λ _. pure g) _ s'
            (leb_of-range _ g.untyped_count (length s'.table)
              (omega (arith, ap length i'.table_eq, kept))
              (omega (arith, ap length i'.table_eq, kept)) range)
            (returns (same, count, below, i', e))

  idle_copy-Stage :
      (pid aep : ℕ) (aeps : List ℕ) (n m : ℕ) (t : List Untyped) (s : Copies)
      → s.notifications ≡ aep ∷ aeps
      → Stage n m t s
      → Returns
          (λ c s'. (c ≡ base + n) × Stage (suc n) m t s')
          (idle_copy mint page_cap map_pages config pid s)
  unfolding idle_copy take_notification
  idle_copy-Stage pid aep aeps n m t s e g = rw e (
      mono
        (copy_cap_into-Stage pid aep n m t
          (record s { notifications = aeps; parent_idling_aep = aep })
          (record { copied_eq = g.copied_eq; slots_le = g.slots_le; table_eq = g.table_eq }))
        (λ c s' (d, g', e'). (d, g')))

  pub free_slots-exact :
      (ep : ℕ) (s : Copies)
      → ep + 1 < 2 ^ config.cspace_size_bits
      → 2 ^ config.cspace_size_bits < 2 ^ 32
      → Returns
          (λ r s'. (s' ≡ s) × (r.0 ≡ ep + 1) × (r.0 < r.1))
          (free_slots mint page_cap map_pages config ep s)
  unfolding free_slots
  free_slots-exact ep s room word =
      let exact : (ep + 1) % 2 ^ 32 ≡ ep + 1 = omega (arith, room, word) in
      let bits : 2 ^ config.cspace_size_bits % 2 ^ 32 ≡ 2 ^ config.cspace_size_bits =
        omega (arith, word) in
      let before : (ep + 1) % 2 ^ 32 < 2 ^ config.cspace_size_bits % 2 ^ 32 =
        omega (arith, exact, bits, room) in
      Returns-check _ _ s (ltb_of-lt _ _ before) (returns (refl, exact, before))

  pub copy_objects-IsPlaced :
      (p : Parent) (pid aep : ℕ) (aeps : List ℕ) (m : ℕ) (t : List Untyped) (s : Copies)
      → s.notifications ≡ aep ∷ aeps
      → 0 < length t
      → length t < 2 ^ 8
      → Stage 0 m t s
      → Returns
          (λ o s'.
            IsPlaced mint config base pid t o
            × Stage (suc (suc (2 + o.untypeds.untyped_count))) m (granted mint config pid t).0 s')
          (copy_objects mint page_cap map_pages config p pid s)
  unfolding copy_objects
  copy_objects-IsPlaced p pid aep aeps m t s e some_ut few g =
      bind (copy_cap_into-Stage pid p.pd 0 m t s g) λ pd s1 (pd_eq, g1, e1).
        bind (copy_cap_into-Stage pid p.tcb 1 m t s1 g1) λ tcb s2 (tcb_eq, g2, e2).
          bind (grant_untypeds-Stage pid p.user_untypeds 2 m t s2 few some_ut g2)
            λ ut s3 (given, count, below, g3, e3).
              let n = 2 + ut.untyped_count in
              let t' = (granted_at pid 2 t).0 in
              bind (copy_cap_into-Stage pid p.sysclock_ep n m t' s3 g3)
                λ clock s4 (clock_eq, g4, e4).
                  bind (idle_copy-Stage pid aep aeps (suc n) m t' s4 (e4 ∙ e3 ∙ e2 ∙ e1 ∙ e) g4)
                    λ idle s5 (idle_eq, g5). returns (
                      record {
                        grant_eq = given;
                        count_le = count;
                        untypeds_below = below;
                        pd_eq = pd_eq;
                        tcb_eq = tcb_eq;
                        clock_eq = clock_eq;
                        idle_eq = idle_eq;
                      },
                      g5,
                    )

  pub link_services-IsLinked :
      (p : Parent) (pid n spare : ℕ) (t : List Untyped) (s : Copies)
      → config.rx_pages ≤ config.tx_pages
      → Stage n (config.rx_pages + (config.tx_pages + (config.serial_pages + spare))) t s
      → Returns
          (λ l s'. IsLinked config base n l × Stage (suc (suc (suc n))) spare t s')
          (link_services mint page_cap map_pages config p pid s)
  unfolding link_services
  link_services-IsLinked p pid n spare t s le g =
      let sp = config.serial_pages + spare in
      bind (share_ipc-Stage mint page_cap map_pages config mapped maps p n sp t s le g)
        λ rt s1 (rx, tx, g1, e1).
          bind (copy_cap_into-Stage pid p.udp_stack_ep n sp t s1 g1) λ op s2 (op_eq, g2, e2).
            bind (copy_cap_into-Stage pid p.serial_server_ep (suc n) sp t s2 g2)
              λ ser s3 (ser_eq, g3, e3).
                bind
                  (share_serial-Stage mint page_cap map_pages config mapped maps p (suc (suc n))
                    spare t s3 g3)
                  λ b s4 (shared, g4, e4).
                    bind (copy_cap_into-Stage pid p.fault_endpoint (suc (suc n)) spare t s4 g4)
                      λ ep s5 (ep_eq, g5, e5). returns (
                        record {
                          rx_shared = rx;
                          tx_shared = tx;
                          serial_shared = shared;
                          op_eq = op_eq;
                          ser_eq = ser_eq;
                          fault_eq = ep_eq;
                        },
                        g5,
                      )
