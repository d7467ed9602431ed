-- ===== src/Serial/Read.antt =====
-- The loop of SERIAL_OP_READ of src/io.c.
use libsel4osapi.Prelude.{
  add_one, ℕ, zero, suc, ◌+◌, ◌≤◌, ◌<◌, ◌≡◌, ap, ◌∙◌, none, some, List, [], ◌∷◌, ◌++◌, append_assoc,
  length, length-append, drop, replicate, arith,
}
use libsel4osapi.Run.{ok}
use libsel4osapi.Buffer.{Bytes, write_at-front, write_at-behind}
use libsel4osapi.Serial.{Serial, Poll, wait_char, read_loop}

-- Once the loop has a character it stores that character in every place that is left.
read_loop-again :
    (n c timeout start : ℕ) (polls : List Poll) (us rest : Bytes) (s : Serial)
    → n ≤ length rest
    → read_loop n (length us) timeout start (some c) polls (us ++ rest) s
      ≡ ok (length us + n, us ++ (replicate n c ++ drop n rest)) s
unfolding read_loop wait_char
read_loop-again zero c timeout start polls us rest s f =
    let e : length us ≡ length us + 0 = omega arith in ap (λ k. ok (k, us ++ rest) s) e
read_loop-again (suc n) c timeout start polls us [] s f = absurd (omega arith)
read_loop-again (suc n) c timeout start polls us (b ∷ rest) s f =
    rw (write_at-behind us (b ∷ rest) (c ∷ []), write_at-front (b ∷ rest) (c ∷ []) (omega arith))
      (rw
        (
          length-append us (c ∷ []),
          append_assoc us (c ∷ []) rest,
          append_assoc us (c ∷ []),
          add_one (length us),
          sum (length us),
        )
        at (read_loop-again n c timeout start polls (us ++ c ∷ []) rest s (omega arith)))
  where
    sum : (k : ℕ) → suc k + n ≡ k + suc n
    sum k = omega arith

-- A read of `n` characters stores the first character that the device gives `n` times, and returns
-- `n`.
pub read_loop-replicate :
    (n c timeout start : ℕ) (polls left : List Poll) (buf : Bytes) (s : Serial)
    → 0 < n
    → n ≤ length buf
    → wait_char timeout start none polls ≡ some (some c, left)
    → read_loop n 0 timeout start none polls buf s ≡ ok (n, replicate n c ++ drop n buf) s
unfolding read_loop
read_loop-replicate zero c timeout start polls left buf s z f w = absurd (omega arith)
read_loop-replicate (suc n) c timeout start polls left [] s z f w = absurd (omega arith)
read_loop-replicate (suc n) c timeout start polls left (b ∷ buf) s z f w =
    rw (w, write_at-front (b ∷ buf) (c ∷ []) (omega arith))
      (let e : 1 + n ≡ suc n = omega arith in
        read_loop-again n c timeout start left (c ∷ []) buf s (omega arith)
        ∙ ap (λ k. ok (k, c ∷ (replicate n c ++ drop n buf)) s) e)
