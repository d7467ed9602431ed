-- ===== src/Boot/Services/Stack.antt =====
-- The UDP stack of the root task when it has been started (src/udp.c, sel4osapi_udp_initialize).
use libsel4osapi.Prelude.{ℕ, suc, ◌≡◌, ◌≢◌, refl, none, List, ◌∷◌, arith}
use libsel4osapi.Run.{Returns, returns, bind}
use libsel4osapi.LinkedList.{Ptr, null}
use libsel4osapi.Pool.{Block}
use libsel4osapi.Pool.New.{new_view}
use libsel4osapi.Udp.Stack.{SocketServer}
use libsel4osapi.Boot.{Routine, udp_stack_thread, Resources, Machine}
use libsel4osapi.Boot.Services.{UdpStack, udp_initialize, stack_name}
use libsel4osapi.Boot.Stocked.{more, Stocked, alloc_endpoint-Stocked, create_mutex-Stocked}
use libsel4osapi.Boot.Running.{IsThreads, create_thread-Stocked, start_thread-Stocked}

-- The stack has no sockets.
pub record IsVacant (max_sockets : ℕ) (blocks : List (Block SocketServer)) (u : UdpStack)
    : Type 0 where
  pub sockets_eq : u.socket_servers ≡ new_view max_sockets none none blocks
  pub mutex_ne : u.mutex ≢ null
  pub stack_op_ep_ne : u.stack_op_ep ≢ 0

module _ (machine : Machine) (max_prio : ℕ) where
  pub udp_initialize-Stocked :
      (max_sockets : ℕ) (arg : Ptr) (blocks : List (Block SocketServer)) (priority : ℕ) (n m : ℕ)
      (hs : List (Ptr × Routine)) (ps : List Ptr) (r : Resources)
      → Stocked (more 3 n) (IsThreads (suc m) hs ps) r
      → Returns
          (λ u r'.
            IsVacant max_sockets blocks u
            × Stocked n
                (IsThreads m ((u.server_thread, udp_stack_thread) ∷ hs) (u.server_thread ∷ ps))
                r')
          (udp_initialize machine max_prio max_sockets arg blocks priority r)
  unfolding udp_initialize
  udp_initialize-Stocked max_sockets arg blocks priority n m hs ps r s =
      bind (create_mutex-Stocked _ _ r s) λ mutex r1 (mutex_ne, s1).
        bind (alloc_endpoint-Stocked _ _ r1 s1) λ ep r2 (ep_ne, s2).
          bind
            (create_thread-Stocked _ _ hs ps r2 stack_name udp_stack_thread arg priority
              (omega arith) s2)
            λ thread r3 s3.
              let (t, at, _) = s3.pool.held.0 in
              bind (start_thread-Stocked _ _ _ ps r3 thread t at s3) λ _ r4 s4.
                returns
                  (record { sockets_eq = refl; mutex_ne = mutex_ne; stack_op_ep_ne = ep_ne }, s4)
