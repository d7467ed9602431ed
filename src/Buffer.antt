-- ===== src/Buffer.antt =====
-- Shared buffers: the bytes that a page holds, and memcpy into and out of them.
use libsel4osapi.Prelude.{
  ℕ, zero, suc, ◌+◌, ◌≤◌, ◌≡◌, refl, ap, ◌∙◌, Option, none, some, List, [], ◌∷◌, ◌++◌, length, take,
  drop, arith, leb, if◌then◌else◌, length-append, take-append, true, subst,
}

abbrev pub Bytes : Type 0
Bytes = List ℕ

abbrev pub behind : {A : Type 0} → List A → Option (List A) → Option (List A)
behind xs none = none
behind xs (some ys) = some (xs ++ ys)

-- memcpy to the offset `off` of a buffer; `none` where it writes past its end.
unfoldable pub write_at : Bytes → ℕ → Bytes → Option Bytes
write_at buf zero [] = some buf
write_at [] zero (d ∷ ds) = none
write_at (b ∷ buf) zero (d ∷ ds) = behind (d ∷ []) (write_at buf zero ds)
write_at [] (suc off) [] = some []
write_at [] (suc off) (d ∷ ds) = none
write_at (b ∷ buf) (suc off) ds = behind (b ∷ []) (write_at buf off ds)

-- memcpy of the first `n` bytes out of a buffer; `none` where it reads past its end.
abbrev pub read_from : Bytes → ℕ → Option Bytes
read_from buf n = if leb n (length buf) then some (take n buf) else none

pub write_at-front :
    (buf ds : Bytes)
    → length ds ≤ length buf
    → write_at buf zero ds ≡ some (ds ++ drop (length ds) buf)
unfolding write_at
write_at-front buf [] f = refl
write_at-front [] (d ∷ ds) f = absurd (omega arith)
write_at-front (b ∷ buf) (d ∷ ds) f = ap (behind (d ∷ [])) (write_at-front buf ds (omega arith))

pub write_at-behind :
    (us buf ds : Bytes) → write_at (us ++ buf) (length us) ds ≡ behind us (write_at buf zero ds)
unfolding write_at
write_at-behind [] buf ds = behind-nil (write_at buf zero ds)
  where
    behind-nil : (o : Option Bytes) → o ≡ behind [] o
    behind-nil none = refl
    behind-nil (some ys) = refl
write_at-behind (u ∷ us) buf ds =
    ap (behind (u ∷ [])) (write_at-behind us buf ds) ∙ regroup (write_at buf zero ds)
  where
    regroup : (o : Option Bytes) → behind (u ∷ []) (behind us o) ≡ behind (u ∷ us) o
    regroup none = refl
    regroup (some ys) = refl

pub length-drop : (n : ℕ) (buf : Bytes) → n ≤ length buf → n + length (drop n buf) ≡ length buf
length-drop zero buf f = omega arith
length-drop (suc n) [] f = absurd (omega arith)
length-drop (suc n) (b ∷ buf) f = omega (arith, length-drop n buf)

-- What has been written at the front is read back.
pub read_from-append :
    (ds rest : Bytes) (n : ℕ) → length ds ≡ n → read_from (ds ++ rest) n ≡ some ds
read_from-append ds rest n e =
    let whole : leb (length ds) (length (ds ++ rest)) ≡ true =
      let l = length-append ds rest in ground arith in
    subst (λ k. read_from (ds ++ rest) k ≡ some ds) e (rw (whole, take-append ds rest) refl)

pub length-take : (n : ℕ) (xs : Bytes) → n ≤ length xs → length (take n xs) ≡ n
length-take zero xs f = refl
length-take (suc n) [] f = absurd (omega arith)
length-take (suc n) (x ∷ xs) f = omega (arith, length-take n xs)

pub take-all : (n : ℕ) (xs : Bytes) → length xs ≤ n → take n xs ≡ xs
take-all zero [] le = refl
take-all zero (x ∷ xs) le = absurd (omega arith)
take-all (suc n) [] le = refl
take-all (suc n) (x ∷ xs) le = ap (λ r. x ∷ r) (take-all n xs (omega arith))
