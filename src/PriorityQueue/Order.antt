-- ===== src/PriorityQueue/Order.antt =====
-- The order of the entries, `UniqueT::operator<`: total on entries with distinct tie breakers.
use whirl_matrix.Base.{◌≡◌, ◌≢◌, true, false, arith}
use whirl_matrix.PriorityQueue.{StrictWeak, Entry, before}

module _ {ℓ} {T : Type ℓ} ⦃o : StrictWeak T⦄ where
  pub before_asym : (x y : Entry T) → before x y ≡ true → before y x ≡ false
  unfolding before
  before_asym x y h = ground (arith, o.asym x.item y.item, o.asym y.item x.item)

  pub before_total :
      (x y : Entry T) → x.tie_braker ≢ y.tie_braker → before y x ≡ false → before x y ≡ true
  unfolding before
  before_total x y d h = ground (arith, o.asym x.item y.item, o.asym y.item x.item)

  pub before_trans : (x y z : Entry T) → before x y ≡ true → before y z ≡ true → before x z ≡ true
  unfolding before
  before_trans x y z h k = ground (
    arith,
    o.cotrans x.item y.item z.item,
    o.cotrans y.item z.item x.item,
    o.cotrans z.item x.item y.item,
    o.asym x.item y.item,
    o.asym y.item x.item,
    o.asym y.item z.item,
    o.asym z.item y.item,
  )
