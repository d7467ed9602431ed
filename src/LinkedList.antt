-- ===== src/LinkedList.antt =====
-- src/list.c: doubly linked lists over an explicit store of nodes. The walk of a list runs on fuel.
pub mod Chain
pub mod Insert
pub mod Separate
pub mod Unlink
pub mod ToArray
pub mod Examples
use libsel4osapi.Prelude.{
  ℕ, zero, suc, List, [], ◌∷◌, length, Option, none, some, not, ◌==◌, if◌then◌else◌,
}
use libsel4osapi.Run.{ok, fail, bad_pointer, out_of_fuel, Cmd, pure, stop, ◌>>=◌, ◌>>◌, check, when}

abbrev pub Ptr : Type 0
Ptr = ℕ

abbrev pub null : Ptr
null = 0

pub record Node : Type 0 where
  pub el : Ptr
  pub next : Ptr
  pub prev : Ptr

abbrev pub node : Ptr → Ptr → Ptr → Node
node e n p = record { el = e; next = n; prev = p }

-- What stands at each address.
abbrev pub Nodes : Type 0
Nodes = Ptr → Option Node

abbrev pub alter : (Node → Node) → Option Node → Option Node
alter f none = none
alter f (some n) = some (f n)

-- The store after `p->next = q`, and after `p->prev = q`.
unfoldable pub with_next : Nodes → Ptr → Ptr → Nodes
with_next h p q a = if a == p then alter (λ n. record n { next = q }) (h a) else h a

unfoldable pub with_prev : Nodes → Ptr → Ptr → Nodes
with_prev h p q a = if a == p then alter (λ n. record n { prev = q }) (h a) else h a

-- `*p`: a fault at NULL and where no node stands.
pub load : Ptr → Cmd Nodes Node
load p h =
    if p == null then fail bad_pointer else elim (h p) [ none ↦ fail bad_pointer | some n ↦ ok n h ]

pub set_next : Ptr → Ptr → Cmd Nodes (Unit {0})
unfolding load
set_next p q = do load p; λ h. ok tt (with_next h p q)

pub set_prev : Ptr → Ptr → Cmd Nodes (Unit {0})
unfolding load
set_prev p q = do load p; λ h. ok tt (with_prev h p q)

-- The loop of sel4osapi_list_insert_node: the last node at or behind `cursor`, `prev` if none.
pub walk : ℕ → (cursor prev : Ptr) → Cmd Nodes Ptr
walk zero cursor prev = stop out_of_fuel
walk (suc fuel) cursor prev =
    if cursor == null then pure prev else do n ← load cursor; walk fuel n.next cursor

pub insert_node : ℕ → Ptr → Ptr → Cmd Nodes Ptr
insert_node fuel head entry = do
  check (not (entry == null))
  prev ← walk fuel head null
  set_next entry null
  if prev == null
      then (do set_prev entry null; pure entry)
      else (do set_next prev entry; set_prev entry prev; pure head)

-- sel4osapi_list_insert: `fresh` is what malloc returns, and `junk` what the block then holds.
pub insert : ℕ → (fresh : Ptr) → (junk : Node) → Ptr → Ptr → Cmd Nodes Ptr
insert fuel fresh junk head e = do
  check (not (fresh == null))
  λ h. ok tt (λ a. if a == fresh then some (record junk { el = e }) else h a)
  insert_node fuel head fresh

pub unlink : Ptr → Ptr → Cmd Nodes Ptr
unlink head entry = do
  check (not (entry == null))
  check (not (head == null))
  n ← load entry
  when (not (n.prev == null)) (set_next n.prev n.next)
  when (not (n.next == null)) (set_prev n.next n.prev)
  head' ← if head == entry then (do check (n.prev == null); pure n.next) else pure head
  set_prev entry null
  set_next entry null
  pure head'

-- The loop of sel4osapi_list_to_array: the elements that it stores in `array`, in order.
pub collect : ℕ → Ptr → Cmd Nodes (List Ptr)
collect zero list = pure []
collect (suc room) list =
    if list == null then pure [] else do n ← load list; es ← collect room n.next; pure (n.el ∷ es)

-- The contents of `array` and the value of `*array_len_out`.
pub to_array : Ptr → ℕ → Cmd Nodes (List Ptr × ℕ)
unfolding collect
to_array list array_len_max = do
  check (not (list == null))
  es ← collect array_len_max list
  pure (es, length es)
