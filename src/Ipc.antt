-- ===== src/Ipc.antt =====
-- src/ipc.c: the clients of the IPC server, one for each process, with the buffers that they share
-- with the services. `pages` are the addresses that vspace_new_pages returns.
pub mod Clients
use libsel4osapi.Prelude.{ℕ, not, none, List, [], ◌∷◌, ◌==◌}
use libsel4osapi.Run.{ok, fail, assert_failed, Cmd, pure, stop, ◌>>=◌, ◌>>◌, check}
use libsel4osapi.LinkedList.{Ptr, null}
use libsel4osapi.Pool.{Block}
use libsel4osapi.Pool.New.{new_view}
use libsel4osapi.Pool.View
use libsel4osapi.Pool.View.{View}

-- sel4osapi_ipcclient_t, with the counts of its two semaphores.
pub record IpcClient : Type 0 where
  pub id : ℕ
  pub tx_buf_avail : ℕ
  pub rx_buf_avail : ℕ
  pub rx_buf : Ptr
  pub rx_buf_size : ℕ
  pub tx_buf : Ptr
  pub tx_buf_size : ℕ

-- sel4osapi_ipcserver_t, and the pages to come.
pub record Ipc : Type 0 where
  pub clients : View IpcClient
  pub pages : List Ptr

-- vspace_new_pages, asserted.
new_pages : List Ptr → Cmd Ipc Ptr
new_pages [] = stop assert_failed
new_pages (p ∷ ps) = do λ s. ok tt (record s { pages = ps }); check (not (p == null)); pure p

module _ (rx_buf_size tx_buf_size : ℕ) where
  -- What sel4osapi_ipc_create_client does with the element that simple_pool_alloc returned.
  pub fill_client : (id : ℕ) → Ptr × View IpcClient → Cmd Ipc Ptr
  unfolding new_pages
  fill_client id (p, v) = do
    check (not (p == null))
    rx ← λ s. new_pages s.pages s
    tx ← λ s. new_pages s.pages s
    λ s. ok tt (record s {
      clients = View.modify v p (λ _. record {
        id = id;
        tx_buf_avail = 1;
        rx_buf_avail = 1;
        rx_buf = rx;
        rx_buf_size = rx_buf_size;
        tx_buf = tx;
        tx_buf_size = tx_buf_size;
      });
    })
    pure p

  -- sel4osapi_ipc_create_client; `id` is not negative.
  pub create_client : (id : ℕ) → Cmd Ipc Ptr
  unfolding fill_client
  create_client id = λ s. fill_client id (View.alloc s.clients) s

-- sel4osapi_ipcserver_initialize, with the elements of simple_pool_new at `blocks`.
unfoldable pub ipcserver_initialize : (process_max : ℕ) → List (Block IpcClient) → List Ptr → Ipc
ipcserver_initialize process_max blocks pages = record {
  clients = new_view process_max none none blocks;
  pages = pages;
}
