-- ===== src/Udp/Sockets.antt =====
-- The calls of src/udp.c with which a process opens and binds a socket: each sends a request to the
-- stack thread of Udp/Stack and waits for its reply. `slots` and `notifications` are what
-- vka_cspace_alloc and vka_alloc_notification_leaky will return to the process.
pub mod Opened
pub mod Agree
pub mod Examples
use libsel4osapi.Prelude.{
  ℕ, zero, suc, ◌+◌, ◌%◌, ◌^◌, Bool, true, false, not, Option, none, some, List, [], ◌∷◌, length,
  ltb, ◌==◌, if◌then◌else◌,
}
use libsel4osapi.Run.{
  Run, ok, fail, assert_failed, bad_pointer, blocked, Cmd, pure, stop, ◌>>=◌, ◌>>◌, check, need,
}
use libsel4osapi.LinkedList.{Ptr, null}
use libsel4osapi.Pool.View
use libsel4osapi.Pool.View.{Slot, View, value_at}
use libsel4osapi.Udp.Stack.{
  SocketServer, StackConfig, Stack, StackReply, op_create_socket, op_bind_socket, serve_request,
}

-- sel4osapi_udp_socket_t
pub record UdpSocket : Type 0 where
  pub id : ℕ
  pub addr : ℕ
  pub port : ℕ
  pub ep_tx_ready : ℕ
  pub ep_rx_ready : ℕ
  pub aep_rx_data : ℕ

-- The identifier of the process's IPC client, its sockets, and the stack that serves them.
pub record World : Type 0 where
  pub client_id : ℕ
  pub sockets : View UdpSocket
  pub slots : List ℕ
  pub notifications : List ℕ
  pub stack : Stack

abbrev on_stack : {A : Type 0} → World → Run Stack A → Run World A
on_stack w (ok a s) = ok a (record w { stack = s })
on_stack w (fail f) = fail f

abbrev replied : Option StackReply → Cmd World StackReply
replied none = stop blocked
replied (some r) = pure r

-- vka_cspace_alloc and vka_alloc_notification_leaky, with the assertion that they succeed.
take_slot : List ℕ → Cmd World ℕ
take_slot [] = stop assert_failed
take_slot (x ∷ xs) = do λ w. ok tt (record w { slots = xs }); check (not (x == 0)); pure x

take_notification : List ℕ → Cmd World ℕ
take_notification [] = stop assert_failed
take_notification (x ∷ xs) = do
  λ w. ok tt (record w { notifications = xs })
  check (not (x == 0))
  pure x

pub set_socket : Ptr → (UdpSocket → UdpSocket) → Cmd World (Unit {0})
set_socket p f w = ok tt (record w { sockets = View.modify w.sockets p f })

abbrev has_cap : Option ℕ → Bool
has_cap none = false
has_cap (some c) = true

abbrev register : ℕ → List ℕ → ℕ
register n [] = 0
register zero (r ∷ rs) = r
register (suc n) (r ∷ rs) = register n rs

module _ (g : StackConfig) where
  -- seL4_Call of the stack's endpoint.
  pub call_stack : (args_num extra_caps mr0 mr1 mr2 : ℕ) → Cmd World StackReply
  call_stack args_num extra_caps mr0 mr1 mr2 = do
    reply ← λ w. on_stack w (serve_request g args_num extra_caps mr0 mr1 mr2 w.stack)
    replied reply

  -- What sel4osapi_udp_create_socket does with the element that simple_pool_alloc returned.
  pub open_socket : (addr : ℕ) → Ptr × View UdpSocket → Cmd World Ptr
  unfolding take_slot set_socket
  open_socket addr (p, v) = do
    check (not (p == null))
    λ w. ok tt (record w { sockets = v })
    set_socket p (λ s. record s { addr = addr; port = 0; ep_rx_ready = 0; aep_rx_data = 0 })
    ep_tx ← λ w. take_slot w.slots w
    set_socket p (λ s. record s { ep_tx_ready = ep_tx })
    reply ← λ w. call_stack 3 0 op_create_socket w.client_id addr w
    check (length reply.registers == 2)
    check (has_cap reply.cap)
    set_socket p (λ s. record s { id = register 1 reply.registers })
    check (register 0 reply.registers == 0)
    pure p

  pub create_socket : (addr : ℕ) → Cmd World Ptr
  unfolding open_socket
  create_socket addr = λ w. open_socket addr (View.alloc w.sockets) w

  -- sel4osapi_udp_bind; `port` is a uint16_t.
  pub bind : (socket : Ptr) (port : ℕ) → Cmd World ℕ
  unfolding take_slot take_notification set_socket
  bind socket port = do
    check (ltb 0 port)
    check (not (socket == null))
    s ← λ w. need (value_at socket w.sockets.used) w
    check (s.port == 0)
    aep ← λ w. take_notification w.notifications w
    set_socket socket (λ t. record t { aep_rx_data = aep })
    copy ← λ w. take_slot w.slots w
    ep_rx ← λ w. take_slot w.slots w
    set_socket socket (λ t. record t { ep_rx_ready = ep_rx })
    reply ← call_stack 3 1 op_bind_socket s.id port
    check (length reply.registers == 1)
    check (has_cap reply.cap)
    check (register 0 reply.registers == 0)
    set_socket socket (λ t. record t { port = port })
    pure 0

-- The loop of sel4osapi_udp_sd_to_socket.
pub find_descriptor : (sd : ℕ) → List (Slot UdpSocket) → Ptr
find_descriptor sd [] = null
find_descriptor sd (s ∷ ss) = if s.value.id == sd then s.el else find_descriptor sd ss

pub sd_to_socket : (sd : ℕ) → Cmd World Ptr
unfolding find_descriptor
sd_to_socket sd = do
  check (ltb 0 sd)
  λ w. check (not (find_descriptor sd w.sockets.used == null)) w
  λ w. ok (find_descriptor sd w.sockets.used) w
