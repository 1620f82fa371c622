-- ===== src/Expiry/Compare/Cases.antt =====
-- The branches of the comparisons as equations.
use backbeat.Base.{◌≡◌, true, false, Option, List, if_true, if_false}
use backbeat.Retention.{MinHeap, Heaps}
use backbeat.Expiry.{Rules, Entity, Target, LifecycleDateTime, is_delete_marker}
use backbeat.Expiry.Compare.{
  compare_version, compare_is_latest_version, compare_marker, compare_current,
}

module _ {H : Type 0} (heap : MinHeap H) (clock : LifecycleDateTime) (target : Target)
    (heaps : Heaps H) (v : Entity) (versions : List Entity) (rules : Rules)
    (found : Option (List Entity)) where
  pub latest_version :
      v.is_latest ≡ true
      → compare_version heap clock target heaps v versions rules found
        ≡ (heaps, compare_is_latest_version clock target v versions rules found)
  unfolding compare_version
  latest_version e = if_true _ _ e

module _ (clock : LifecycleDateTime) (target : Target) (v : Entity) (versions : List Entity)
    (rules : Rules) (found : Option (List Entity)) where
  pub latest_marker :
      is_delete_marker v ≡ true
      → compare_is_latest_version clock target v versions rules found
        ≡ compare_marker clock target v versions rules found
  unfolding compare_is_latest_version
  latest_marker e = if_true _ _ e

  pub latest_object :
      is_delete_marker v ≡ false
      → compare_is_latest_version clock target v versions rules found
        ≡ compare_current clock target v rules
  unfolding compare_is_latest_version compare_current
  latest_object e = if_false _ _ e
