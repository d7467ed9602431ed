-- ===== src/Serial/Write.antt =====
-- sel4osapi_io_serial_write of src/io.c, from the caller to the device.
use libsel4osapi.Prelude.{
  ℕ, suc, ◌+◌, ◌-◌, ◌≤◌, ◌<◌, ◌≡◌, refl, sym, ap, subst, ◌∙◌, ◌⊎◌, inl, inr, true, false, ◌||◌,
  some, List, [], ◌∷◌, ◌++◌, append_assoc, append-nil, length, length-append, take, drop, get_elem?,
  arith, leb, ◌==◌,
}
use libsel4osapi.Run.{ok}
use libsel4osapi.LinkedList.Separate.{IsAlone, Separate-middle}
use libsel4osapi.Pool.View
use libsel4osapi.Pool.View.{Slot, View}
use libsel4osapi.Pool.Shape.{els, els-append}
use libsel4osapi.Pool.Lookup.{value_at-middle, put-middle}
use libsel4osapi.Buffer.{Bytes, write_at-front, length-take}
use libsel4osapi.Serial.{
  SerialClient, Serial, write_loop, serve, take_buf, give_buf, set_buf, set_op_size,
  io_serial_write, serial_op_write, uart1, uart2,
}
use libsel4osapi.Serial.Clients.{IsSerial, Numbered, find_client-middle}

abbrev pub tagged : ℕ → Bytes → List (ℕ × ℕ)
tagged dev [] = []
tagged dev (c ∷ cs) = (dev, c) ∷ tagged dev cs

get_elem?-middle : (xs ys : Bytes) (y : ℕ) → get_elem? (xs ++ y ∷ ys) (length xs) ≡ some y
get_elem?-middle [] ys y = refl
get_elem?-middle (x ∷ xs) ys y = get_elem?-middle xs ys y

length-snoc : (xs : Bytes) (x : ℕ) → length (xs ++ x ∷ []) ≡ suc (length xs)
length-snoc xs x = omega (arith, length-append xs (x ∷ []))

-- The loop gives the device the bytes `cs` behind the first `us`.
write_loop-tagged :
    (dev : ℕ) (us cs rest : Bytes) (s : Serial)
    → write_loop (length cs) (length us) dev (us ++ (cs ++ rest)) s
      ≡ ok tt (record s { output = s.output ++ tagged dev cs })
unfolding write_loop
write_loop-tagged dev us [] rest s =
    ap (λ o. ok tt (record s { output = o })) (sym (append-nil s.output))
write_loop-tagged dev us (c ∷ cs) rest s =
    let s' : Serial = record s { output = s.output ++ (dev, c) ∷ [] } in
    rw (write_loop, get_elem?-middle us (cs ++ rest) c)
      (rw
        (
          length-snoc us c,
          append_assoc us (c ∷ []) (cs ++ rest),
          append_assoc s.output ((dev, c) ∷ []) (tagged dev cs),
        )
        at (write_loop-tagged dev (us ++ c ∷ []) cs rest s'))

abbrev pub IsDevice : ℕ → Type 0
IsDevice dev = (dev ≡ uart1) ⊎ (dev ≡ uart2)

IsDevice-test : (dev : ℕ) → IsDevice dev → (dev == uart1 || dev == uart2) ≡ true
IsDevice-test dev (inl e) = rw e refl
IsDevice-test dev (inr e) = rw e refl

module _ (timeout_of : Bytes → ℕ) (serial_configure : ℕ → Bytes → ℕ) (s : Serial)
    (us vs : List (Slot SerialClient)) (c : Slot SerialClient) where
  abbrev pub with_client : SerialClient → Serial
  with_client x = record s {
    clients = record s.clients { used = us ++ record c { value = x } ∷ vs };
  }

  -- A write goes to the device.
  serve-write :
      (dev : ℕ) (x : SerialClient) (cs rest : Bytes)
      → IsSerial (with_client x)
      → IsDevice dev
      → s.op_size ≤ x.buf_size
      → x.buf ≡ cs ++ rest
      → serve timeout_of serial_configure [] 0 x.id serial_op_write dev (length cs) (with_client x)
        ≡ ok
            (some (length cs))
            (record (with_client x) { op_size = length cs; output = s.output ++ tagged dev cs })
  unfolding serve set_op_size
  serve-write dev x cs rest i d f b =
      let room : leb s.op_size x.buf_size ≡ true = ground arith in
      let s' : Serial = record (with_client x) { op_size = length cs } in
      let s'' : Serial = record s' { output = s.output ++ tagged dev cs } in
      let loop : write_loop (length cs) 0 dev x.buf s' ≡ ok tt s'' =
        subst (λ buf. write_loop (length cs) 0 dev buf s' ≡ ok tt s'') (sym b)
          (write_loop-tagged dev [] cs rest s') in
      rw
        (
          find_client-middle us vs (record c { value = x }) i.numbered,
          room,
          IsDevice-test dev d,
          loop,
        )
        refl

  -- The element of the client stands nowhere else.
  alone :
      (x : SerialClient)
      → IsSerial (with_client x)
      → IsAlone c.el (els s.clients.free) (els us) (els vs)
  alone x i =
      Separate-middle c.el c.entry (els s.clients.free) (els us) (els vs)
        (rw (els-append us (record c { value = x } ∷ vs)) at i.elements)

  -- Any change of the client's fields but the identifier.
  pub with_client-IsSerial :
      (x y : SerialClient) → x.id ≡ y.id → IsSerial (with_client x) → IsSerial (with_client y)
  with_client-IsSerial x y e i = record {
    elements =
        rw (els-append us (record c { value = y } ∷ vs))
          (rw (els-append us (record c { value = x } ∷ vs)) at i.elements);
    numbered = renumber 0 us i.numbered;
  }
    where
      renumber :
          (n : ℕ) (ws : List (Slot SerialClient))
          → Numbered n (ws ++ record c { value = x } ∷ vs)
          → Numbered n (ws ++ record c { value = y } ∷ vs)
      renumber n [] (a, b) = (sym e ∙ a, b)
      renumber n (w ∷ ws) (a, b) = (a, renumber (suc n) ws b)

  pub io_serial_write-tagged :
      (dev size : ℕ) (text : Bytes)
      → IsSerial (with_client c.value)
      → IsDevice dev
      → s.op_size ≤ c.value.buf_size
      → 0 < c.value.buf_avail
      → size ≤ length text
      → size ≤ c.value.buf_size
      → c.value.buf_size ≤ length c.value.buf
      → let cs = take size text in
        io_serial_write timeout_of serial_configure c.el dev text size (with_client c.value)
        ≡ ok size
            (record (with_client (record c.value { buf = cs ++ drop (length cs) c.value.buf })) {
              op_size = size;
              output = s.output ++ tagged dev cs;
            })
  unfolding io_serial_write take_buf give_buf set_buf View.modify
  io_serial_write-tagged dev size text i d stale avail f g h =
      let cs = take size text in
      let x : SerialClient = record c.value { buf_avail = c.value.buf_avail - 1 } in
      let y : SerialClient = record x { buf = cs ++ drop (length cs) c.value.buf } in
      let cut = length-take size text f in
      let own = alone c.value i in
      let put_at = λ (g : SerialClient → SerialClient) (z : SerialClient).
        put-middle g us vs (record c { value = z }) own.front own.back in
      let fits : leb size c.value.buf_size ≡ true = ground arith in
      let free : (c.value.buf_avail == 0) ≡ false = ground arith in
      let whole : leb size (length text) ≡ true = ground arith in
      let given : c.value.buf_avail - 1 + 1 ≡ c.value.buf_avail = omega arith in
      let served =
        subst
          (λ n.
            serve timeout_of serial_configure [] 0 y.id serial_op_write dev n (with_client y)
            ≡ ok (some n)
                (record (with_client y) { op_size = n; output = s.output ++ tagged dev cs }))
          cut
          (serve-write dev y cs (drop (length cs) c.value.buf)
            (with_client-IsSerial c.value y refl i) d stale refl) in
      rw
        (
          value_at-middle us vs c own.front,
          fits,
          free,
          put_at (λ e. record e { buf_avail = e.buf_avail - 1 }) c.value,
          whole,
          write_at-front c.value.buf cs (omega (arith, cut)),
          put_at (λ e. record e { buf = y.buf }) x,
          served,
          put_at (λ e. record e { buf_avail = e.buf_avail + 1 }) y,
          given,
        )
        refl
