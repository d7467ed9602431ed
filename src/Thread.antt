-- ===== src/Thread.antt =====
-- src/thread.c: the threads of a process, over the view of the pool `threads`. `world` is what the
-- routines of the threads work on. What the other libraries hand out are lists: `endpoints` and
-- `notifications` of the allocator, and `frames`, the addresses of the IPC buffers, of
-- sel4utils_configure_thread_config; an empty list is a failure.
pub mod Lifecycle
pub mod Monitor
pub mod Examples
use libsel4osapi.Prelude.{
  ℕ, zero, suc, ◌+◌, ◌-◌, ◌%◌, ◌^◌, Bool, true, false, not, Option, none, some, List, [], ◌∷◌, ◌++◌,
  length, take, leb, ◌==◌, if◌then◌else◌,
}
use libsel4osapi.Run.{
  ok, fail, assert_failed, bad_pointer, blocked, Cmd, pure, stop, ◌>>=◌, ◌>>◌, check, need,
}
use libsel4osapi.LinkedList.{Ptr, null}
use libsel4osapi.Pool.View
use libsel4osapi.Pool.View.{Slot, View, value_at}
use libsel4osapi.Buffer.{Bytes}

-- sel4osapi_thread_info_t
pub record ThreadInfo : Type 0 where
  pub tid : ℕ
  pub name : Bytes
  pub arg : Ptr
  pub tls : Ptr
  pub active : ℕ
  pub wait_aep : ℕ
  pub priority : ℕ
  pub ipc : Ptr
  pub ipc_word : ℕ

module _ (W : Type 0) where
  -- sel4osapi_thread_t; `started` is the state of the native thread, and `user_data` the word that it
  -- finds in its IPC buffer.
  pub record Thread : Type 0 where
    pub local_endpoint : ℕ
    pub thread_aep : ℕ
    pub fault_endpoint : ℕ
    pub thread_routine : ThreadInfo → W → W
    pub info : ThreadInfo
    pub started : Bool
    pub user_data : ℕ

  -- A process with its threads. `calls` are the calls that wait at endpoints, with their first register.
  pub record Threads : Type 0 where
    pub threads : View Thread
    pub pid : ℕ
    pub fault_endpoint : ℕ
    pub endpoints : List ℕ
    pub notifications : List ℕ
    pub frames : List Ptr
    pub calls : List (ℕ × ℕ)
    pub world : W

-- SEL4OSAPI_THREAD_NAME_MAX_LEN with the default configuration, and the size of the field `name`.
abbrev pub name_max_len : ℕ
name_max_len = 50

abbrev pub name_prefix_max_len : ℕ
name_prefix_max_len = 10

-- snprintf of a name to the field, with the bound of name_max_len bytes: to write past the end of the
-- field is a fault.
pub store_name : {S : Type 0} → Bytes → Cmd S Bytes
store_name name =
    let stored = take (name_max_len - 1) name in
    if leb (suc (length stored)) (name_max_len - name_prefix_max_len)
    then pure stored
    else stop bad_pointer

abbrev name_of : (default_name : ℕ → ℕ → Bytes) → Option Bytes → (pid tid : ℕ) → Bytes
name_of default_name none pid tid = default_name pid tid
name_of default_name (some name) pid tid = name

-- The first call that waits at an endpoint.
abbrev pub call_at : (endpoint : ℕ) → List (ℕ × ℕ) → Option ℕ
call_at endpoint [] = none
call_at endpoint (c ∷ cs) = if c.0 == endpoint then some c.1 else call_at endpoint cs

module _ {W : Type 0} where
  take_endpoint : List ℕ → Cmd (Threads W) ℕ
  take_endpoint [] = stop assert_failed
  take_endpoint (e ∷ es) = λ s. ok e (record s { endpoints = es })

  take_notification : List ℕ → Cmd (Threads W) ℕ
  take_notification [] = stop assert_failed
  take_notification (n ∷ ns) = λ s. ok n (record s { notifications = ns })

  take_frame : List Ptr → Cmd (Threads W) Ptr
  take_frame [] = stop assert_failed
  take_frame (f ∷ fs) = λ s. ok f (record s { frames = fs })

  pub set_thread : Ptr → (Thread W → Thread W) → Cmd (Threads W) (Unit {0})
  set_thread p f s = ok tt (record s { threads = View.modify s.threads p f })

  -- What sel4osapi_thread_create does with the element that simple_pool_alloc returned, in a process
  -- other than the root task. `default_name` is the format of the name of a thread without one.
  pub fill_thread :
      (default_name : ℕ → ℕ → Bytes)
      → Option Bytes
      → (thread_routine : ThreadInfo → W → W) → (thread_arg : Ptr) → (priority : ℕ)
      → Ptr × View (Thread W)
      → Cmd (Threads W) Ptr
  unfolding take_endpoint take_notification take_frame set_thread store_name
  fill_thread default_name name thread_routine thread_arg priority (p, v) = do
    check (not (p == null))
    λ s. ok tt (record s { threads = v })
    let tid = View.get_current_size v
    local_endpoint ← λ s. take_endpoint s.endpoints s
    thread_aep ← λ s. take_notification s.notifications s
    frame ← λ s. take_frame s.frames s
    stored ← λ s. store_name (name_of default_name name s.pid tid) s
    λ s.
        set_thread p
          (λ t. record t {
            local_endpoint = local_endpoint;
            thread_aep = thread_aep;
            fault_endpoint = s.fault_endpoint;
            thread_routine = thread_routine;
            info = record t.info {
              tid = tid;
              name = stored;
              arg = thread_arg;
              tls = null;
              wait_aep = thread_aep;
              priority = priority;
              ipc = frame;
            };
            started = false;
            user_data = frame;
          })
          s
    pure p

  pub thread_create :
      (default_name : ℕ → ℕ → Bytes)
      → Option Bytes
      → (thread_routine : ThreadInfo → W → W) → (thread_arg : Ptr) → (priority : ℕ)
      → Cmd (Threads W) Ptr
  unfolding fill_thread
  thread_create default_name name thread_routine thread_arg priority =
      λ s. fill_thread default_name name thread_routine thread_arg priority (View.alloc s.threads) s

  -- sel4osapi_thread_start, where sel4utils_start_thread succeeds.
  pub thread_start : Ptr → Cmd (Threads W) ℕ
  unfolding set_thread
  thread_start p = do set_thread p (λ t. record t { started = true }); pure 0

  -- sel4osapi_thread_init_tls
  pub thread_init_tls : Ptr → Cmd (Threads W) (Unit {0})
  unfolding set_thread
  thread_init_tls p = do
    self ← λ s. need (value_at p s.threads.used) s
    set_thread p (λ t. record t { info = record t.info { ipc_word = self.user_data } })
    check (not (self.user_data == 0))
    set_thread p (λ t. record t { user_data = p })

  -- sel4osapi_thread_routine_wrapper, which ends in a call that nobody answers.
  pub thread_routine_wrapper : Ptr → Cmd (Threads W) (Unit {0})
  unfolding thread_init_tls set_thread
  thread_routine_wrapper p = do
    thread_init_tls p
    set_thread p (λ t. record t { info = record t.info { active = 1 } })
    self ← λ s. need (value_at p s.threads.used) s
    λ s. ok tt (record s { world = self.thread_routine self.info s.world })
    set_thread p (λ t. record t { info = record t.info { active = 0 } })
    λ s. ok tt (record s { calls = s.calls ++ (self.local_endpoint, 0) ∷ [] })

  abbrev received : Option ℕ → Cmd (Threads W) ℕ
  received none = stop blocked
  received (some r) = pure r

  -- sel4osapi_thread_join
  pub thread_join : Ptr → Cmd (Threads W) ℕ
  thread_join p = do
    t ← λ s. need (value_at p s.threads.used) s
    λ s. received (call_at t.local_endpoint s.calls) s

  -- sel4osapi_thread_get_current, called by the thread at `p`.
  pub thread_get_current : Ptr → Cmd (Threads W) ThreadInfo
  thread_get_current p = do
    t ← λ s. need (value_at p s.threads.used) s
    self ← λ s. need (value_at t.user_data s.threads.used) s
    pure self.info
