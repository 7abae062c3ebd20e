-- ===== src/Client/Persistent/Order.antt =====
-- The comparisons of internal/client/persistent.go are total orders.
use Prim.Native.Nat.{Ordering}
use gdns_server.Base.{◌≤◌, ◌<◌, ◌⊎◌, ◌≡◌, refl, ap, [], ◌∷◌, arith, ◌↔◌}
use gdns_server.Base.Dict.{Text}
use gdns_server.Net.{Addr, invalid, v4, v6, Prefix}
use gdns_server.SortedMap.Order.{IsTotalOrder}
use gdns_server.Client.Persistent.{compare_text, compare_addr, subnet_compare}

text_eq_iff : (a b : Text) → (compare_text a b ≡ Ordering.eq) ↔ (a ≡ b)
unfolding compare_text
text_eq_iff [] [] = ((λ e. refl), (λ e. refl))
text_eq_iff [] (y ∷ ys) = ((λ e. cc), (λ e. cc))
text_eq_iff (x ∷ xs) [] = ((λ e. cc), (λ e. cc))
text_eq_iff (x ∷ xs) (y ∷ ys) =
    ((λ e. ground (arith, text_eq_iff xs ys)), (λ e. ground (arith, text_eq_iff xs ys)))

text_gt_iff : (a b : Text) → (compare_text a b ≡ Ordering.gt) ↔ (compare_text b a ≡ Ordering.lt)
unfolding compare_text
text_gt_iff [] [] = ((λ e. cc), (λ e. cc))
text_gt_iff [] (y ∷ ys) = ((λ e. cc), (λ e. cc))
text_gt_iff (x ∷ xs) [] = ((λ e. refl), (λ e. refl))
text_gt_iff (x ∷ xs) (y ∷ ys) =
    ((λ e. ground (arith, text_gt_iff xs ys)), (λ e. ground (arith, text_gt_iff xs ys)))

text_lt_trans :
    (a b c : Text)
    → compare_text a b ≡ Ordering.lt
    → compare_text b c ≡ Ordering.lt
    → compare_text a c ≡ Ordering.lt
unfolding compare_text
text_lt_trans [] [] c p q = cc
text_lt_trans [] (y ∷ ys) [] p q = cc
text_lt_trans [] (y ∷ ys) (z ∷ zs) p q = refl
text_lt_trans (x ∷ xs) [] c p q = cc
text_lt_trans (x ∷ xs) (y ∷ ys) [] p q = cc
text_lt_trans (x ∷ xs) (y ∷ ys) (z ∷ zs) p q = ground (arith, text_lt_trans xs ys zs)

compare_text-IsTotalOrder : IsTotalOrder compare_text
compare_text-IsTotalOrder = record {
  eq_iff = text_eq_iff;
  gt_iff = text_gt_iff;
  lt_trans = text_lt_trans;
}

addr_eq_iff : (a b : Addr) → (compare_addr a b ≡ Ordering.eq) ↔ (a ≡ b)
unfolding compare_addr
addr_eq_iff invalid invalid = ((λ e. refl), (λ e. refl))
addr_eq_iff (v4 a) (v4 b) = ((λ e. ground arith), (λ e. ground arith))
addr_eq_iff (v6 a z) (v6 b w) =
    ((λ e. ground (arith, text_eq_iff z w)), (λ e. ground (arith, text_eq_iff z w)))
addr_eq_iff _ _ = ((λ e. cc), (λ e. cc))

addr_gt_iff : (a b : Addr) → (compare_addr a b ≡ Ordering.gt) ↔ (compare_addr b a ≡ Ordering.lt)
unfolding compare_addr
addr_gt_iff (v4 a) (v4 b) = ((λ e. ground arith), (λ e. ground arith))
addr_gt_iff (v6 a z) (v6 b w) =
    ((λ e. ground (arith, text_gt_iff z w)), (λ e. ground (arith, text_gt_iff z w)))
addr_gt_iff _ _ = ((λ e. ground arith), (λ e. ground arith))

addr_lt_trans :
    (a b c : Addr)
    → compare_addr a b ≡ Ordering.lt
    → compare_addr b c ≡ Ordering.lt
    → compare_addr a c ≡ Ordering.lt
unfolding compare_addr
addr_lt_trans (v4 a) (v4 b) (v4 c) p q = ground arith
addr_lt_trans (v6 a z) (v6 b w) (v6 c x) p q = ground (arith, text_lt_trans z w x)
addr_lt_trans _ _ _ p q = ground arith

subnet_eq_iff : (x y : Prefix) → (subnet_compare x y ≡ Ordering.eq) ↔ (x ≡ y)
unfolding subnet_compare
subnet_eq_iff x y = (
  (λ e. ground (arith, addr_eq_iff x.addr y.addr)),
  (λ e. ground (arith, addr_eq_iff x.addr y.addr)),
)

subnet_gt_iff :
    (x y : Prefix) → (subnet_compare x y ≡ Ordering.gt) ↔ (subnet_compare y x ≡ Ordering.lt)
unfolding subnet_compare
subnet_gt_iff x y = (
  (λ e. ground (arith, addr_gt_iff x.addr y.addr, addr_eq_iff x.addr y.addr)),
  (λ e. ground (arith, addr_gt_iff x.addr y.addr, addr_eq_iff x.addr y.addr)),
)

-- What `subnet_compare` answers in terms of the parts.
subnet_lt_iff :
    (x y : Prefix)
    → (subnet_compare x y ≡ Ordering.lt)
      ↔ ((y.bits < x.bits) ⊎ ((x.bits ≡ y.bits) × (compare_addr x.addr y.addr ≡ Ordering.lt)))
unfolding subnet_compare
subnet_lt_iff x y = (
  (λ e. ground arith),
  (λ e. ground (
    arith,
    addr_eq_iff x.addr y.addr,
    ap (λ (z : Prefix). z.addr) {x = x} {y = y},
    ap (λ (z : Prefix). z.bits) {x = x} {y = y},
  )),
)

subnet_lt_trans :
    (x y z : Prefix)
    → subnet_compare x y ≡ Ordering.lt
    → subnet_compare y z ≡ Ordering.lt
    → subnet_compare x z ≡ Ordering.lt
subnet_lt_trans x y z p q =
    let a = (subnet_lt_iff x y).0 p in
    let b = (subnet_lt_iff y z).0 q in
    (subnet_lt_iff x z).1 (ground (arith, addr_lt_trans x.addr y.addr z.addr))

pub subnet_compare-IsTotalOrder : IsTotalOrder subnet_compare
subnet_compare-IsTotalOrder = record {
  eq_iff = subnet_eq_iff;
  gt_iff = subnet_gt_iff;
  lt_trans = subnet_lt_trans;
}

-- A prefix that comes before another is not shorter.
pub subnet_compare-bits : (x y : Prefix) → subnet_compare x y ≡ Ordering.lt → y.bits ≤ x.bits
subnet_compare-bits x y p = let a = (subnet_lt_iff x y).0 p in omega arith
