-- ===== src/Thread/Monitor.antt =====
-- sel4osapi_syslog_monitor_thread of src/log.c: a thread that watches another one, in a process other
-- than the root task. What the monitoring thread does is a parameter: it prints, and waits for a fault.
use libsel4osapi.Prelude.{
  ℕ, suc, ◌-◌, ◌≤◌, ◌≡◌, ◌≢◌, refl, ap, inl, inr, true, false, not, none, some, List, [], ◌∷◌, ◌++◌,
  length, take, ltb, leb, ◌==◌, ==-ne, if◌then◌else◌, arith, Bool-cases,
}
use libsel4osapi.Run.{ok, fail, bad_pointer, Cmd, pure, ◌>>=◌, ◌>>◌, check, need}
use libsel4osapi.LinkedList.{Ptr, null}
use libsel4osapi.LinkedList.Separate.{Separate}
use libsel4osapi.Pool.View
use libsel4osapi.Pool.View.{Slot, View, value_at, alloc-first}
use libsel4osapi.Pool.Shape.{els}
use libsel4osapi.Pool.Lookup.{put-middle}
use libsel4osapi.Buffer.{Bytes, length-take, take-all}
use libsel4osapi.Thread.{
  ThreadInfo, Thread, Threads, name_max_len, store_name, take_endpoint, take_notification,
  take_frame, fill_thread, thread_create, thread_start,
}
use libsel4osapi.Thread.Lifecycle.{with_thread, prepared, created, grown, thread_create-created}

-- "syslog::"
abbrev pub name_prefix : Bytes
name_prefix = 115 ∷ 121 ∷ 115 ∷ 108 ∷ 111 ∷ 103 ∷ 58 ∷ 58 ∷ []

abbrev pub monitoring_name : Bytes → Bytes
monitoring_name name = take (name_max_len - 1) (name_prefix ++ name)

-- The thread at `p` is monitored.
pub monitor_thread :
    {W : Type 0} → (monitoring : ThreadInfo → W → W) → (p : Ptr) → Cmd (Threads W) ℕ
monitor_thread monitoring p = do
  thread ← λ s. need (value_at p s.threads.used) s
  q ←
      thread_create (λ _ _. []) (some (monitoring_name thread.info.name)) monitoring p
        thread.info.priority
  check (not (q == null))
  error ← thread_start q
  check (error == 0)
  pure 0

take-long : (xs : Bytes) → 40 ≤ length xs → 40 ≤ length (take 49 xs)
take-long xs long = elim (Bool-cases (leb (length xs) 49)) [
  | inl fits ↦ let all = take-all 49 xs (ground (arith, fits)) in omega (arith, long, ap length all)
  | inr over ↦ let cut = length-take 49 xs (ground (arith, over)) in omega (arith, cut)
]

store_name-overrun :
    {S : Type 0} (name : Bytes) (s : S) → 40 ≤ length name → store_name name s ≡ fail bad_pointer
unfolding store_name
store_name-overrun name s long =
    let over : leb (suc (length (take 49 name))) 40 ≡ false =
      let l = take-long name long in ground arith in
    rw over refl

module _ {W : Type 0} (s : Threads W) (e : Slot (Thread W)) (rest : List (Slot (Thread W))) (ep : ℕ)
    (eps : List ℕ) (aep : ℕ) (aeps : List ℕ) (frame : Ptr) (frames : List Ptr) where
  thread_create-overrun :
      (default_name : ℕ → ℕ → Bytes) (name : Bytes) (thread_routine : ThreadInfo → W → W)
      (arg : Ptr) (priority : ℕ)
      → s.threads.init_fn ≡ none
      → e.el ≢ null
      → 40 ≤ length name
      → thread_create default_name
          (some name)
          thread_routine
          arg
          priority
          (prepared s e rest ep eps aep aeps frame frames)
        ≡ fail bad_pointer
  unfolding thread_create fill_thread take_endpoint take_notification take_frame
  thread_create-overrun default_name name thread_routine arg priority n ne long =
      rw (alloc-first s.threads e rest n, ==-ne e.el null ne, store_name-overrun name _ long) refl

  -- The process with the monitoring thread, which has been started.
  abbrev pub monitored : (ThreadInfo → W → W) → Ptr → Thread W → Threads W
  monitored monitoring p t =
      let new =
        created s e rest ep eps aep aeps frame frames (name_prefix ++ t.info.name) monitoring p
          t.info.priority in
      with_thread (grown s e rest ep eps aep aeps frame frames) s.threads.used [] new
        (record new.value { started = true })

  -- Monitoring a thread with a name of fewer than 32 characters, in a process that has what it takes,
  -- starts a thread that is named after it behind the prefix, has its priority and gets it as its
  -- argument; for a longer name, the name of the new thread is written past the end of its field.
  pub monitor_thread-bounded :
      (monitoring : ThreadInfo → W → W) (p : Ptr) (t : Thread W)
      → s.threads.init_fn ≡ none
      → Separate (els (e ∷ rest)) (els s.threads.used)
      → value_at p s.threads.used ≡ some t
      → monitor_thread monitoring p (prepared s e rest ep eps aep aeps frame frames) ≡ (
          if ltb (length t.info.name) 32 then ok 0 (monitored monitoring p t) else fail bad_pointer)
  unfolding monitor_thread thread_start View.modify
  monitor_thread-bounded monitoring p t n d at = elim (Bool-cases (ltb (length t.info.name) 32)) [
    | inl short ↦
        let whole : monitoring_name t.info.name ≡ name_prefix ++ t.info.name =
          take-all 49 (name_prefix ++ t.info.name) (ground (arith, short)) in
        rw
          (
            at,
            whole,
            thread_create-created s e rest ep eps aep aeps frame frames (λ _ _. [])
                (name_prefix ++ t.info.name) monitoring p t.info.priority n d
                (ground (arith, short)),
            ==-ne e.el null d.left.0,
            short,
            put-middle (λ t. record t { started = true }) s.threads.used []
                (created s e rest ep eps aep aeps frame frames (name_prefix ++ t.info.name)
                  monitoring p t.info.priority)
                d.apart.0 refl,
          )
          refl
    | inr over ↦
        let long : 40 ≤ length (monitoring_name t.info.name) =
          take-long (name_prefix ++ t.info.name) (ground (arith, over)) in
        rw
          (
            at,
            thread_create-overrun (λ _ _. []) (monitoring_name t.info.name) monitoring p
                t.info.priority n d.left.0 long,
            over,
          )
          refl
  ]
