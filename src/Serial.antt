-- ===== src/Serial.antt =====
-- The serial devices of src/io.c: sel4osapi_serial_server_thread, its clients and their calls. The
-- devices are parameters: `polls` is what the clock and ps_cdev_getchar return one after the other
-- while the server reads, `serial_configure` what the driver answers, and `timeout_of` the size_t
-- at the front of a buffer. The page of a client is mapped at the client and at the server; it is
-- one buffer here.
pub mod Clients
pub mod Write
pub mod Read
pub mod Examples
use libsel4osapi.Prelude.{
  ℕ, zero, suc, ◌+◌, ◌-◌, ◌%◌, ◌^◌, Bool, ◌&&◌, ◌||◌, not, Option, none, some, List, [], ◌∷◌, ◌++◌,
  ltb, leb, ◌==◌, get_elem?, if◌then◌else◌,
}
use libsel4osapi.Run.{
  ok, fail, assert_failed, bad_pointer, blocked, out_of_fuel, Cmd, pure, stop, ◌>>=◌, ◌>>◌, check,
  need,
}
use libsel4osapi.LinkedList.{Ptr, null}
use libsel4osapi.Pool.View
use libsel4osapi.Pool.View.{Slot, View, value_at}
use libsel4osapi.Buffer.{Bytes, write_at, read_from}

-- sel4osapi_serialclient_t, with the count of the semaphore `buf_avail`.
pub record SerialClient : Type 0 where
  pub id : ℕ
  pub buf_avail : ℕ
  pub buf : Bytes
  pub buf_size : ℕ
  pub server_ep : ℕ

-- sel4osapi_serialserver_t, with the local variable `op_size` of the thread and what ps_cdev_putchar
-- has been given: device and character.
pub record Serial : Type 0 where
  pub server_ep : ℕ
  pub clients : View SerialClient
  pub op_size : ℕ
  pub output : List (ℕ × ℕ)

abbrev pub serial_op_write : ℕ
serial_op_write = 201

abbrev pub serial_op_read : ℕ
serial_op_read = 202

abbrev pub serial_op_config : ℕ
serial_op_config = 203

abbrev pub uart1 : ℕ
uart1 = 1

abbrev pub uart2 : ℕ
uart2 = 2

-- The time that the clock shows, and what ps_cdev_getchar then returns; EOF is none.
pub record Poll : Type 0 where
  pub now : ℕ
  pub char : Option ℕ

pub find_client : (client_id : ℕ) → List (Slot SerialClient) → Option (Slot SerialClient)
find_client client_id [] = none
find_client client_id (s ∷ ss) =
    if s.value.id == client_id then some s else find_client client_id ss

abbrev pub asserted : {A : Type 0} → Option A → Cmd Serial A
asserted none = stop assert_failed
asserted (some a) = pure a

pub set_op_size : ℕ → Cmd Serial (Unit {0})
set_op_size n s = ok tt (record s { op_size = n })

-- The loop of SERIAL_OP_WRITE.
pub write_loop : (room i device : ℕ) → Bytes → Cmd Serial (Unit {0})
write_loop zero i device buf = pure tt
write_loop (suc room) i device buf = do
  c ← need (get_elem? buf i)
  λ s. ok tt (record s { output = s.output ++ (device, c) ∷ [] })
  write_loop room (suc i) device buf

-- The inner loop of SERIAL_OP_READ: `ret` after it, and the polls that are left. Where `polls` ends
-- the thread still waits.
pub wait_char : (timeout start : ℕ) → (ret : Option ℕ) → List Poll → Option (Option ℕ × List Poll)
wait_char timeout start (some c) polls = some (some c, polls)
wait_char timeout start none [] = none
wait_char timeout start none (p ∷ polls) =
    if ltb 0 timeout && ltb timeout ((p.now + 2 ^ 32 - start) % 2 ^ 32)
    then some (none, polls)
    else wait_char timeout start p.char polls

abbrev waited : Option (Option ℕ × List Poll) → Cmd Serial (Option ℕ × List Poll)
waited none = stop out_of_fuel
waited (some r) = pure r

-- `buf[i] = ret`, and then the next round; the loop ends at EOF.
abbrev store_char : ℕ → Bytes → Option ℕ → (Bytes → Cmd Serial (ℕ × Bytes)) → Cmd Serial (ℕ × Bytes)
store_char i buf none next = pure (i, buf)
store_char i buf (some c) next = need (write_at buf i (c ∷ [])) >>= next

-- The loop of SERIAL_OP_READ: the number of characters and the buffer after it. `ret` is not reset.
pub read_loop :
    (room i timeout start : ℕ) → (ret : Option ℕ) → List Poll → Bytes → Cmd Serial (ℕ × Bytes)
unfolding wait_char
read_loop zero i timeout start ret polls buf = pure (i, buf)
read_loop (suc room) i timeout start ret polls buf = do
  (ret', left) ← waited (wait_char timeout start ret polls)
  store_char i buf ret' (λ buf'. read_loop room (suc i) timeout start ret' left buf')

pub set_buf : Ptr → Bytes → Cmd Serial (Unit {0})
set_buf p buf s =
    ok tt (record s { clients = View.modify s.clients p (λ c. record c { buf = buf }) })

module _ (timeout_of : Bytes → ℕ) (serial_configure : ℕ → Bytes → ℕ) where
  -- One round of the server: the register that it replies with; it does not reply to an operation
  -- that it does not know.
  pub serve : (polls : List Poll) (start mr0 mr1 mr2 mr3 : ℕ) → Cmd Serial (Option ℕ)
  unfolding find_client set_op_size write_loop read_loop set_buf
  serve polls start mr0 mr1 mr2 mr3 s =
      (do
        client ← asserted (find_client mr0 s.clients.used)
        let c = client.value
        check (leb s.op_size c.buf_size)
        check (mr2 == uart1 || mr2 == uart2)
        if mr1 == serial_op_write
            then (do set_op_size mr3; write_loop mr3 0 mr2 c.buf; pure (some mr3))
            else if mr1 == serial_op_read
            then (do
              set_op_size mr3
              (i, buf) ← read_loop mr3 0 (timeout_of c.buf) start none polls c.buf
              set_buf client.el buf
              pure (some i))
            else if mr1 == serial_op_config
            then pure (some (serial_configure mr2 c.buf))
            else pure none)
        s

  -- sel4osapi_semaphore_take and sel4osapi_semaphore_give of the client at `p`.
  pub take_buf : Ptr → SerialClient → Cmd Serial (Unit {0})
  take_buf p c s =
      if c.buf_avail == 0
      then fail blocked
      else ok tt (record s {
        clients = View.modify s.clients p (λ d. record d { buf_avail = d.buf_avail - 1 });
      })

  pub give_buf : Ptr → Cmd Serial (Unit {0})
  give_buf p s = ok tt (record s {
    clients = View.modify s.clients p (λ d. record d { buf_avail = d.buf_avail + 1 });
  })

  -- seL4_Call: the caller waits for a reply.
  abbrev replied : Option ℕ → Cmd Serial ℕ
  replied none = stop blocked
  replied (some r) = pure r

  -- sel4osapi_io_serial_write by the client at `p`.
  pub io_serial_write : (p : Ptr) (dev : ℕ) (text : Bytes) (size : ℕ) → Cmd Serial ℕ
  unfolding serve take_buf give_buf set_buf
  io_serial_write p dev text size = do
    c ← λ s. need (value_at p s.clients.used) s
    check (leb size c.buf_size)
    take_buf p c
    bytes ← need (read_from text size)
    buf ← need (write_at c.buf 0 bytes)
    set_buf p buf
    reply ← serve [] 0 c.id serial_op_write dev size
    mr0 ← replied reply
    give_buf p
    pure mr0

  -- sel4osapi_io_serial_read: the result, and the bytes copied to `data`. `timed buf` is the buffer
  -- with the timeout written to its front.
  pub io_serial_read :
      (timed : Bytes → Bytes)
      → List Poll
      → (start : ℕ) → (p : Ptr) (dev size : ℕ) → Cmd Serial (ℕ × Bytes)
  unfolding serve take_buf give_buf set_buf
  io_serial_read timed polls start p dev size = do
    c ← λ s. need (value_at p s.clients.used) s
    check (leb size c.buf_size)
    take_buf p c
    set_buf p (timed c.buf)
    reply ← serve polls start c.id serial_op_read dev size
    mr0 ← replied reply
    d ← λ s. need (value_at p s.clients.used) s
    bytes ← need (read_from d.buf mr0)
    give_buf p
    pure (mr0, bytes)

  -- sel4osapi_io_serial_configure: `config buf` is the buffer with the configuration at its front.
  pub io_serial_configure :
      (config : Bytes → Bytes) → (config_size : ℕ) → (p : Ptr) (dev : ℕ) → Cmd Serial ℕ
  unfolding serve take_buf give_buf set_buf
  io_serial_configure config config_size p dev = do
    c ← λ s. need (value_at p s.clients.used) s
    take_buf p c
    set_buf p (config c.buf)
    reply ← serve [] 0 c.id serial_op_config dev config_size
    mr0 ← replied reply
    give_buf p
    pure mr0

-- sel4osapi_io_serial_create_client: `page` is what the page of vspace_new_pages holds.
abbrev new_client : Bytes → ℕ → Ptr × View SerialClient → Cmd Serial Ptr
new_client page buf_size (p, v) s =
    (do
      check (not (p == null))
      let id = View.get_current_size v
      λ t. ok tt (record t {
        clients = View.modify v p (λ c. record {
          id = id;
          buf_avail = 1;
          buf = page;
          buf_size = buf_size;
          server_ep = t.server_ep;
        });
      })
      pure p)
      s

pub create_client : (page : Bytes) → (buf_size : ℕ) → Cmd Serial Ptr
create_client page buf_size s = new_client page buf_size (View.alloc s.clients) s
