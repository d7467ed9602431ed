-- ===== src/Thread/Examples.antt =====
-- A thread of src/thread.c that counts.
use libsel4osapi.Prelude.{
  ℕ, ◌+◌, ◌≡◌, refl, if◌then◌else◌, ltb, none, some, false, [], ◌∷◌, length, arith,
}
use libsel4osapi.Run.{ok, fail, bad_pointer, ◌>>=◌, ◌>>◌}
use libsel4osapi.Pool.View.{Slot}
use libsel4osapi.Buffer.{Bytes}
use libsel4osapi.Thread.{
  ThreadInfo, Thread, Threads, thread_create, thread_start, thread_routine_wrapper, thread_join,
}
use libsel4osapi.Thread.Monitor.{monitor_thread, monitored, monitor_thread-bounded}
use libsel4osapi.Thread.Lifecycle.{prepared, created, grown, joined, thread_create-joined}

-- The routine adds the thread's argument while the thread is active.
abbrev count : ThreadInfo → ℕ → ℕ
count info n = n + info.active + info.arg

abbrev thread : Slot (Thread ℕ)
thread = record {
  entry = 10;
  el = 11;
  value = record {
    local_endpoint = 0;
    thread_aep = 0;
    fault_endpoint = 0;
    thread_routine = count;
    info = record {
      tid = 0;
      name = [];
      arg = 0;
      tls = 0;
      active = 0;
      wait_aep = 0;
      priority = 0;
      ipc = 0;
      ipc_word = 0;
    };
    started = false;
    user_data = 0;
  };
}

abbrev process : Threads ℕ
process = record {
  threads = record { size = 1; free = []; used = []; init_fn = none; compare_fn = none };
  pid = 3;
  fault_endpoint = 8;
  endpoints = [];
  notifications = [];
  frames = [];
  calls = [];
  world = 5;
}

abbrev default_name : ℕ → ℕ → Bytes
default_name pid tid = 112 ∷ pid ∷ tid ∷ []

thread_create-joined_example :
    (thread_create default_name (some (116 ∷ [])) count 7 100 >>= λ p.
    thread_start p >> thread_routine_wrapper p >> thread_join p)
      (prepared process thread [] 31 [] 32 [] 4096 [])
    ≡ ok 0 (
        joined
          (grown process thread [] 31 [] 32 [] 4096 [])
          []
          []
          (created process thread [] 31 [] 32 [] 4096 [] (116 ∷ []) count 7 100))
thread_create-joined_example =
    thread_create-joined process thread [] 31 [] 32 [] 4096 [] default_name (116 ∷ []) count 7 100
      refl (record { left = (omega arith, refl, tt); right = tt; apart = (refl, tt) }) (omega arith)
      (omega arith) refl

-- The thread "t", which is monitored.
abbrev watched : Slot (Thread ℕ)
watched = record {
  entry = 20;
  el = 21;
  value = record thread.value { info = record thread.value.info { tid = 1; name = 116 ∷ [] } };
}

abbrev busy : Threads ℕ
busy = record process { threads = record process.threads { size = 2; used = watched ∷ [] } }

monitor_thread-bounded_example :
    monitor_thread count 21 (prepared busy thread [] 31 [] 32 [] 4096 []) ≡ (
      if ltb (length watched.value.info.name) 32
      then ok 0 (monitored busy thread [] 31 [] 32 [] 4096 [] count 21 watched.value)
      else fail bad_pointer)
monitor_thread-bounded_example =
    monitor_thread-bounded busy thread [] 31 [] 32 [] 4096 [] count 21 watched.value refl
      (record {
        left = (omega arith, refl, tt);
        right = (omega arith, refl, tt);
        apart = (refl, tt);
      })
      refl
