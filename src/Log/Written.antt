-- ===== src/Log/Written.antt =====
-- A message of src/log.c that fits its buffer, on its way to a serial device.
use libsel4osapi.Prelude.{
  ℕ, suc, ◌+◌, ◌-◌, ◌%◌, ◌^◌, ◌≤◌, ◌<◌, ◌≡◌, ◌≢◌, refl, ap, sym, subst, ◌∙◌, Bool, true, false,
  some, List, [], ◌∷◌, ◌++◌, append_assoc, length, length-append, take, drop, take-append, leb,
  ==-ne, arith, inl, inr,
}
use libsel4osapi.Run.{ok}
use libsel4osapi.Pool.View.{Slot}
use libsel4osapi.Buffer.{
  Bytes, write_at, write_at-front, write_at-behind, behind, length-drop, take-all, take-all,
}
use libsel4osapi.Serial.{SerialClient, Serial, io_serial_write}
use libsel4osapi.Serial.Clients.{IsSerial}
use libsel4osapi.Serial.Write.{
  with_client, with_client-IsSerial, tagged, IsDevice, io_serial_write-tagged,
}
use libsel4osapi.Log.{
  Log, LogEvent, taken, given, wrote, note, buffer_max_size, newline, snprintf, write_serial,
  out_message, log_lock, log_unlock, log_message,
}

length-end : (text : Bytes) → length (text ++ 0 ∷ []) ≡ suc (length text)
length-end text = omega (arith, length-append text (0 ∷ []))

-- A text that fits is written whole, with an end, behind what stands in front of it.
snprintf-whole :
    (n : ℕ) (text front back : Bytes) (s : Log)
    → s.buffer ≡ front ++ back
    → length text < n
    → length text < length back
    → snprintf (length front) n text s
      ≡ ok
          (length text)
          (record s { buffer = front ++ (text ++ 0 ∷ drop (suc (length text)) back) })
unfolding snprintf
snprintf-whole n text front back s e fits room =
    let written : write_at s.buffer (length front) (text ++ 0 ∷ [])
        ≡ some (front ++ (text ++ 0 ∷ drop (suc (length text)) back)) =
      ap (λ b. write_at b (length front) (text ++ 0 ∷ [])) e
      ∙ write_at-behind front back (text ++ 0 ∷ [])
      ∙ ap (behind front) (
          write_at-front back (text ++ 0 ∷ []) (omega (arith, length-end text))
          ∙ ap some (
              ap (λ k. (text ++ 0 ∷ []) ++ drop k back) (length-end text)
              ∙ append_assoc text (0 ∷ []) (drop (suc (length text)) back))) in
    rw (==-ne n 0 (omega arith), take-all (n - 1) text (omega arith), written) refl

module _ (timeout_of : Bytes → ℕ) (serial_configure : ℕ → Bytes → ℕ) (t : Serial)
    (us vs : List (Slot SerialClient)) (c : Slot SerialClient) where
  -- The serial server with the client of the process, whose buffer holds `buf`.
  abbrev pub client_with : Bytes → Serial
  client_with buf = with_client timeout_of serial_configure t us vs c (record c.value { buf = buf })

  -- The client's buffer after a write of `line`, and after that of the newline.
  abbrev pub after_line : (line : Bytes) → Bytes
  after_line line = line ++ drop (length line) c.value.buf

  abbrev pub after_newline : (line : Bytes) → Bytes
  after_newline line = newline ∷ drop 1 (after_line line)

  -- The server after both writes.
  abbrev pub printed_line : (dev : ℕ) → (line : Bytes) → Serial
  printed_line dev line = record (client_with (after_newline line)) {
    op_size = 1;
    output = (t.output ++ tagged dev line) ++ tagged dev (newline ∷ []);
  }

  -- The bytes that a line puts on the device.
  abbrev pub line_events : (dev : ℕ) → (line : Bytes) → List LogEvent
  line_events dev line = wrote dev line ∷ wrote dev (newline ∷ []) ∷ []

  out_message-printed :
      (s : Log) (line back : Bytes)
      → s.buffer ≡ line ++ back
      → s.serial ≡ client_with c.value.buf
      → IsSerial (client_with c.value.buf)
      → IsDevice s.console
      → t.op_size ≤ c.value.buf_size
      → 0 < c.value.buf_avail
      → length line ≤ c.value.buf_size
      → 0 < c.value.buf_size
      → c.value.buf_size ≤ length c.value.buf
      → out_message timeout_of serial_configure c.el (length line) s
        ≡ ok tt (record s {
          serial = printed_line s.console line;
          events = s.events ++ line_events s.console line;
        })
  unfolding out_message write_serial note
  out_message-printed s line back b e i d stale avail fits positive whole =
      let t' : Serial = record t {
        op_size = length line;
        output = t.output ++ tagged s.console line;
      } in
      let c' : Slot SerialClient = record c { value = record c.value { buf = after_line line } } in
      let cut : take (length line) s.buffer ≡ line =
        ap (take (length line)) b ∙ take-append line back in
      let room : length line ≤ length s.buffer =
        omega (arith, ap length b, length-append line back) in
      let same : length (after_line line) ≡ length c.value.buf =
        length-append line (drop (length line) c.value.buf)
        ∙ length-drop (length line) c.value.buf (omega arith) in
      let first =
        subst
          (λ l.
            io_serial_write timeout_of serial_configure c.el s.console s.buffer (length line)
              (client_with c.value.buf)
            ≡ ok (length line) (record (client_with (l ++ drop (length l) c.value.buf)) {
              op_size = length line;
              output = t.output ++ tagged s.console l;
            }))
          cut
          (io_serial_write-tagged timeout_of serial_configure t us vs c s.console (length line)
            s.buffer i d stale avail room fits whole) in
      let j =
        with_client-IsSerial timeout_of serial_configure t us vs c
          (record c.value { buf = c.value.buf }) c'.value refl i in
      let second =
        io_serial_write-tagged timeout_of serial_configure t' us vs c' s.console 1 (newline ∷ [])
          (record { elements = j.elements; numbered = j.numbered }) d fits avail (omega arith)
          positive (omega (arith, same)) in
      rw
        (
          ==-ne s.console 0 (device_ne d),
          e,
          first,
          cut,
          second,
          append_assoc s.events (wrote s.console line ∷ []) (wrote s.console (newline ∷ []) ∷ []),
        )
        refl
    where
      device_ne : IsDevice s.console → s.console ≢ 0
      device_ne (inl one) = λ z. omega (arith, one, z)
      device_ne (inr two) = λ z. omega (arith, two, z)

  -- The log with a mutex that nobody holds, and the serial server with the process's client.
  abbrev pub ready : Log → Log
  ready s = record s { mutex = some false; serial = client_with c.value.buf }

  -- The log's buffer when it holds `line`.
  abbrev pub holding : Bytes → (head : Bytes) → (text : Bytes) → Bytes
  holding buffer head text =
      head ++ (text ++ 0 ∷ drop (suc (length text)) (0 ∷ drop (suc (length head)) buffer))

  -- A message of a level that is logged, whose head and text fit the log's buffer and that of the client,
  -- is put on the console's device, head and text and then a newline, between the taking and the release
  -- of the mutex, which nobody held before; the client's buffer is available again.
  pub log_message-printed :
      (s : Log) (level : ℕ) (pre : Bool → Bytes) (text : Bytes)
      → level ≤ s.loglevel
      → length s.buffer ≡ buffer_max_size
      → length (pre true) + length text < buffer_max_size
      → IsSerial (client_with c.value.buf)
      → IsDevice s.console
      → t.op_size ≤ c.value.buf_size
      → 0 < c.value.buf_avail
      → length (pre true) + length text ≤ c.value.buf_size
      → 0 < c.value.buf_size
      → c.value.buf_size ≤ length c.value.buf
      → log_message timeout_of serial_configure c.el level pre text (ready s)
        ≡ ok tt (record (ready s) {
          buffer = holding s.buffer (pre true) text;
          serial = printed_line s.console (pre true ++ text);
          events = s.events ++ taken ∷ (line_events s.console (pre true ++ text) ++ given ∷ []);
        })
  unfolding log_message log_lock log_unlock note
  log_message-printed s level pre text le size fits i d stale avail room positive whole =
      let head = pre true in
      let logged : leb level s.loglevel ≡ true = ground arith in
      let held : Log = record (ready s) { mutex = some true; events = s.events ++ taken ∷ [] } in
      let back : Bytes = 0 ∷ drop (suc (length head)) s.buffer in
      let with_head : Log = record held { buffer = head ++ back } in
      let with_text : Log = record held { buffer = holding s.buffer head text } in
      let left : (buffer_max_size + 2 ^ 32 - length head) % 2 ^ 32 ≡ buffer_max_size - length head =
        omega (arith, fits) in
      let cut = length-drop (suc (length head)) s.buffer (omega (arith, size, fits)) in
      let both = length-append head text in
      let total : (length head + length text) % 2 ^ 32 ≡ length (head ++ text) =
        omega (arith, fits, both) in
      rw
        (
          logged,
          snprintf-whole buffer_max_size head [] s.buffer held refl (omega (arith, fits))
              (omega (arith, size, fits)),
          left,
          snprintf-whole (buffer_max_size - length head) text head back with_head refl
              (omega (arith, fits)) (omega (arith, cut, size, fits)),
          total,
          out_message-printed with_text (head ++ text) (0 ∷ drop (suc (length text)) back)
              (sym (append_assoc head text _)) refl i d stale avail (omega (arith, both, room))
              positive whole,
          append_assoc s.events (taken ∷ []) (line_events s.console (head ++ text)),
          append_assoc s.events (taken ∷ line_events s.console (head ++ text)) (given ∷ []),
        )
        refl
