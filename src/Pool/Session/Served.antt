-- ===== src/Pool/Session/Served.antt =====
-- Every session of a client with a pool of src/pool.c goes as the view of the pool says.
use libsel4osapi.Prelude.{
  ℕ, suc, ◌<◌, ◌≡◌, refl, ap, subst, ◌∙◌, Option, none, some, List, [], ◌∷◌, ℤ, arith, length,
}
use libsel4osapi.Run.{Returns, returns, bind, ◌>>=◌}
use libsel4osapi.LinkedList.{Ptr}
use libsel4osapi.LinkedList.Chain.{Distinct}
use libsel4osapi.Pool.{Heap, Pool, Block, new}
use libsel4osapi.Pool.View
use libsel4osapi.Pool.View.{Slot, View, value_at, alloc_from, give_back, split_at}
use libsel4osapi.Pool.Shape.{cells, els, Shows}
use libsel4osapi.Pool.New.{slots, new_view, new-Shows}
use libsel4osapi.Pool.Alloc.{alloc-View}
use libsel4osapi.Pool.Release.{free-View}
use libsel4osapi.Pool.Update.{used_live, change_el-View}
use libsel4osapi.Pool.Session.{
  Call, take, give, change, Reply, element, status, perform, perform_all, serve, serve_give,
  serve_change, and_serve, serve_all,
}

abbrev or_else : {A : Type 0} → A → Option A → A
or_else a none = a
or_else a (some x) = x

some_injective : {A : Type 0} (x y : A) → some x ≡ some y → x ≡ y
some_injective x y e = ap (or_else x) e

and_serve-some :
    {A B : Type 0} (o : Option A) (k : A → Option B) (y : B)
    → and_serve o k ≡ some y
    → (x : A) × (o ≡ some x) × (k x ≡ some y)
and_serve-some none k y e = cc
and_serve-some (some a) k y e = (a, refl, e)

module _ {E : Type 0} where
  alloc_from-size : (v : View E) (ss : List (Slot E)) → (alloc_from v ss).1.size ≡ v.size
  alloc_from-size v [] = refl
  alloc_from-size v (s ∷ ss) = refl

  alloc-size : (v : View E) → (View.alloc v).1.size ≡ v.size
  unfolding View.alloc
  alloc-size v = alloc_from-size v v.free

  give_back-size :
      (v : View E) (o : Option (List (Slot E) × Slot E × List (Slot E)))
      → (give_back v o).1.size ≡ v.size
  give_back-size v none = refl
  give_back-size v (some (us, s, vs)) = refl

  release-size : (v : View E) (e : Ptr) (y : E) → (View.release v e y).1.size ≡ v.size
  unfolding View.release
  release-size v e y = give_back-size v (split_at v.compare_fn e y v.used)

  -- The reply is that of the view, and the heap shows the view after it, of the same size.
  abbrev Goes : (size : ℕ) → Reply × View E → Reply × Pool E → Heap E → Type 0
  Goes size (r, v') (r', p') h' = (r' ≡ r) × Shows h' p' v' × (v'.size ≡ size)

  module _ (fuel : ℕ) (h : Heap E) (p : Pool E) (v : View E) (sh : Shows h p v)
      (enough : v.size < fuel) where
    give_at-Goes :
        (e : Ptr) (o : Option E) (out : Reply × View E)
        → value_at e v.used ≡ o
        → serve_give v e o ≡ some out
        → Returns (Goes v.size out) (perform fuel p (give e) h)
    unfolding perform
    give_at-Goes e none out at s = cc
    give_at-Goes e (some y) out at s =
        let (live, held) = used_live h p v e y sh at in
        subst (λ o. Returns (Goes v.size o) (perform fuel p (give e) h)) (some_injective _ out s)
          (bind (free-View fuel h p v e y sh live held (omega (arith, sh.size_eq, enough)))
            λ (error, p') h' (same, sh'). returns (ap status same, sh', release-size v e y))

    change_at-Goes :
        (e : Ptr) (f : E → E) (o : Option E) (out : Reply × View E)
        → value_at e v.used ≡ o
        → serve_change v e f o ≡ some out
        → Returns (Goes v.size out) (perform fuel p (change e f) h)
    unfolding perform View.modify
    change_at-Goes e f none out at s = cc
    change_at-Goes e f (some y) out at s =
        subst (λ o. Returns (Goes v.size o) (perform fuel p (change e f) h))
          (some_injective _ out s)
          (bind (change_el-View h p v e f y sh at) λ _ h' sh'. returns (refl, sh', refl))

    perform-Goes :
        (c : Call E) (out : Reply × View E)
        → serve v c ≡ some out
        → Returns (Goes v.size out) (perform fuel p c h)
    unfolding perform serve
    perform-Goes take out s =
        subst (λ o. Returns (Goes v.size o) (perform fuel p take h)) (some_injective _ out s)
          (bind (alloc-View fuel h p v sh (omega (arith, sh.size_eq, enough)))
            λ (e, p') h' (same, sh'). returns (ap element same, sh', alloc-size v))
    perform-Goes (give e) out s = give_at-Goes e (value_at e v.used) out refl s
    perform-Goes (change e f) out s = change_at-Goes e f (value_at e v.used) out refl s

  perform_all-Shows :
      (cs : List (Call E)) (fuel : ℕ) (h : Heap E) (p : Pool E) (v : View E) (rs : List Reply)
      (v' : View E)
      → Shows h p v
      → v.size < fuel
      → serve_all v cs ≡ some (rs, v')
      → Returns (λ (rs', p') h'. (rs' ≡ rs) × Shows h' p' v') (perform_all fuel p cs h)
  unfolding perform_all serve_all
  perform_all-Shows [] fuel h p v rs v' sh enough s =
      let same = some_injective _ (rs, v') s in
      returns (ap (λ z. z.0) same, subst (Shows h p) (ap (λ z. z.1) same) sh)
  perform_all-Shows (c ∷ cs) fuel h p v rs v' sh enough s =
      let (out, first, more) = and_serve-some (serve v c) _ (rs, v') s in
      let (outs, rest, done) = and_serve-some (serve_all out.1 cs) _ (rs, v') more in
      let same = some_injective _ (rs, v') done in
      bind (perform-Goes fuel h p v sh enough c out first) λ (r, p1) h1 (reply, sh1, size).
        bind
          (perform_all-Shows cs fuel h1 p1 out.1 outs.0 outs.1 sh1 (omega (arith, size, enough))
            rest)
          λ (rs1, p2) h2 (replies, sh2). returns (
            ap (λ a. a ∷ rs1) reply ∙ ap (λ l. out.0 ∷ l) replies ∙ ap (λ z. z.0) same,
            subst (Shows h2 p2) (ap (λ z. z.1) same) sh2,
          )

  -- On the pool that simple_pool_new makes of `size` blocks at distinct addresses that are not NULL,
  -- every sequence of allocations, releases and writes that uses pointers of used elements only ends;
  -- it returns what two queues of elements, all of them free and initialised at first, return, and
  -- leaves a heap that shows what is left of them.
  pub new-serve_all :
      (size el_size : ℕ) (i : Option (E → E)) (c : Option (E → E → ℤ)) (bs : List (Block E))
      (h : Heap E) (cs : List (Call E)) (rs : List Reply) (v' : View E)
      → 0 < size
      → 0 < el_size
      → size ≡ length bs
      → Distinct (cells (slots i bs))
      → Distinct (els (slots i bs))
      → serve_all (new_view size i c bs) cs ≡ some (rs, v')
      → Returns
          (λ (rs', p') h'. (rs' ≡ rs) × Shows h' p' v')
          ((new size el_size i c bs >>= λ p. perform_all (suc size) p cs) h)
  new-serve_all size el_size i c bs h cs rs v' some_size some_bytes l dn de s =
      bind (new-Shows size el_size i c bs h some_size some_bytes l dn de) λ p h1 sh.
        perform_all-Shows cs (suc size) h1 p (new_view size i c bs) rs v' sh (omega arith) s
