-- ===== src/Thread/Lifecycle.antt =====
-- A thread of src/thread.c from its creation to its end.
use libsel4osapi.Prelude.{
  add_one, ℕ, suc, ◌<◌, ◌≡◌, ◌≢◌, refl, true, false, none, some, List, [], ◌∷◌, ◌++◌, length,
  length-append, leb, ==-ne, ==-self, arith,
}
use libsel4osapi.Run.{ok, ◌>>=◌, ◌>>◌}
use libsel4osapi.LinkedList.{Ptr, null}
use libsel4osapi.LinkedList.Chain.{has}
use libsel4osapi.LinkedList.Separate.{Separate}
use libsel4osapi.Pool.View
use libsel4osapi.Pool.View.{Slot, View, alloc-first}
use libsel4osapi.Pool.Shape.{els}
use libsel4osapi.Pool.Lookup.{value_at-middle, put-middle}
use libsel4osapi.Buffer.{Bytes, take-all}
use libsel4osapi.Thread.{
  ThreadInfo, Thread, Threads, store_name, call_at, take_endpoint, take_notification, take_frame,
  set_thread, fill_thread, thread_create, thread_start, thread_init_tls, thread_routine_wrapper,
  thread_join,
}

store_name-whole :
    {S : Type 0} (name : Bytes) (s : S) → length name < 40 → store_name name s ≡ ok name s
unfolding store_name
store_name-whole name s short =
    let fits : leb (suc (length name)) 40 ≡ true = ground arith in
    rw (take-all 49 name (omega arith), fits) refl

call_at-last :
    (ep : ℕ) (cs : List (ℕ × ℕ)) → call_at ep cs ≡ none → call_at ep (cs ++ (ep, 0) ∷ []) ≡ some 0
call_at-last ep [] e = rw (==-self ep) refl
call_at-last ep (c ∷ cs) e = ground (arith, call_at-last ep cs)

pub thread_start-ok :
    {W : Type 0} (p : Ptr) (s : Threads W)
    → thread_start p s
      ≡ ok 0 (record s { threads = View.modify s.threads p (λ t. record t { started = true }) })
unfolding thread_start set_thread
thread_start-ok p s = refl

module _ {W : Type 0} (s : Threads W) (us vs : List (Slot (Thread W))) (e : Slot (Thread W)) where
  -- The process with the thread as `v`.
  abbrev pub with_thread : Thread W → Threads W
  with_thread v = record s {
    threads = record s.threads { used = us ++ record e { value = v } ∷ vs };
  }

  pub thread_start-started :
      (v : Thread W)
      → has e.el (els us) ≡ false
      → has e.el (els vs) ≡ false
      → thread_start e.el (with_thread v) ≡ ok 0 (with_thread (record v { started = true }))
  unfolding thread_start set_thread View.modify
  thread_start-started v o o' =
      rw (put-middle (λ t. record t { started = true }) us vs (record e { value = v }) o o') refl

  -- What a running thread sees of itself.
  abbrev pub running : ThreadInfo
  running = record e.value.info { active = 1; ipc_word = e.value.user_data }

  abbrev pub ended : Thread W
  ended = record e.value { info = record running { active = 0 }; started = true; user_data = e.el }

  -- The process when the thread's routine has worked on the world.
  abbrev pub joined : Threads W
  joined = record (with_thread ended) {
    world = e.value.thread_routine running s.world;
    calls = s.calls ++ (e.value.local_endpoint, 0) ∷ [];
  }

  thread_start-joined :
      has e.el (els us) ≡ false
      → has e.el (els vs) ≡ false
      → e.value.user_data ≢ 0
      → call_at e.value.local_endpoint s.calls ≡ none
      → (thread_start e.el >> thread_routine_wrapper e.el >> thread_join e.el) (with_thread e.value)
        ≡ ok 0 joined
  unfolding thread_start thread_routine_wrapper thread_init_tls thread_join set_thread View.modify
  thread_start-joined o o' word no_call =
      let put_at = λ (g : Thread W → Thread W) (v : Thread W).
        put-middle g us vs (record e { value = v }) o o' in
      let at = λ (v : Thread W). value_at-middle us vs (record e { value = v }) o in
      let v1 : Thread W = record e.value { started = true } in
      let v2 : Thread W = record v1 { info = record v1.info { ipc_word = v1.user_data } } in
      let v3 : Thread W = record v2 { user_data = e.el } in
      let v4 : Thread W = record v3 { info = record v3.info { active = 1 } } in
      rw
        (
          put_at (λ t. record t { started = true }) e.value,
          at v1,
          put_at (λ t. record t { info = record t.info { ipc_word = v1.user_data } }) v1,
          ==-ne e.value.user_data 0 word,
          put_at (λ t. record t { user_data = e.el }) v2,
          put_at (λ t. record t { info = record t.info { active = 1 } }) v3,
          at v4,
          put_at (λ t. record t { info = record t.info { active = 0 } }) v4,
          at ended,
          call_at-last e.value.local_endpoint s.calls no_call,
        )
        refl

module _ {W : Type 0} (s : Threads W) (e : Slot (Thread W)) (rest : List (Slot (Thread W))) (ep : ℕ)
    (eps : List ℕ) (aep : ℕ) (aeps : List ℕ) (frame : Ptr) (frames : List Ptr) where
  -- The process before it creates a thread: an element is free, and the other libraries have what it
  -- takes.
  abbrev pub prepared : Threads W
  prepared = record s {
    threads = record s.threads { free = e ∷ rest };
    endpoints = ep ∷ eps;
    notifications = aep ∷ aeps;
    frames = frame ∷ frames;
  }

  -- The thread that is created.
  abbrev pub created :
      (name : Bytes)
      → (thread_routine : ThreadInfo → W → W) → (arg : Ptr) → (priority : ℕ) → Slot (Thread W)
  created name thread_routine arg priority = record e {
    value = record {
      local_endpoint = ep;
      thread_aep = aep;
      fault_endpoint = s.fault_endpoint;
      thread_routine = thread_routine;
      info = record e.value.info {
        tid = suc (length s.threads.used);
        name = name;
        arg = arg;
        tls = null;
        wait_aep = aep;
        priority = priority;
        ipc = frame;
      };
      started = false;
      user_data = frame;
    };
  }

  abbrev pub grown : Threads W
  grown = record s {
    threads = record s.threads { free = rest };
    endpoints = eps;
    notifications = aeps;
    frames = frames;
  }

  pub thread_create-created :
      (default_name : ℕ → ℕ → Bytes) (name : Bytes) (thread_routine : ThreadInfo → W → W)
      (arg : Ptr) (priority : ℕ)
      → s.threads.init_fn ≡ none
      → Separate (els (e ∷ rest)) (els s.threads.used)
      → length name < 40
      → thread_create default_name (some name) thread_routine arg priority prepared
        ≡ ok e.el (
            with_thread grown s.threads.used []
              (created name thread_routine arg priority)
              (created name thread_routine arg priority).value)
  unfolding thread_create fill_thread take_endpoint take_notification take_frame set_thread
      View.modify View.get_current_size
  thread_create-created default_name name thread_routine arg priority n d short =
      rw
        (
          alloc-first s.threads e rest n,
          ==-ne e.el null d.left.0,
          length-append s.threads.used (e ∷ []),
          add_one (length s.threads.used),
          store_name-whole name _ short,
          put-middle
              (λ t. record t {
                local_endpoint = ep;
                thread_aep = aep;
                fault_endpoint = s.fault_endpoint;
                thread_routine = thread_routine;
                info = record t.info {
                  tid = suc (length s.threads.used);
                  name = name;
                  arg = arg;
                  tls = null;
                  wait_aep = aep;
                  priority = priority;
                  ipc = frame;
                };
                started = false;
                user_data = frame;
              })
              s.threads.used [] e d.apart.0 refl,
        )
        refl

  -- A new thread with a name of fewer than 40 characters, in a process that has what it takes, gets the
  -- next identifier; when it is started, its routine works on the world once, while the thread is active
  -- and sees its own arguments, and joining the thread then returns 0.
  pub thread_create-joined :
      (default_name : ℕ → ℕ → Bytes) (name : Bytes) (thread_routine : ThreadInfo → W → W)
      (arg : Ptr) (priority : ℕ)
      → s.threads.init_fn ≡ none
      → Separate (els (e ∷ rest)) (els s.threads.used)
      → length name < 40
      → frame ≢ 0
      → call_at ep s.calls ≡ none
      → (thread_create default_name (some name) thread_routine arg priority >>= λ p.
            thread_start p >> thread_routine_wrapper p >> thread_join p)
          prepared
        ≡ ok 0 (joined grown s.threads.used [] (created name thread_routine arg priority))
  thread_create-joined default_name name thread_routine arg priority n d short word no_call =
      rw (thread_create-created default_name name thread_routine arg priority n d short) (
        thread_start-joined grown s.threads.used [] (created name thread_routine arg priority)
          d.apart.0 refl word no_call)
