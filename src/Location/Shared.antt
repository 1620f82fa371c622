-- ===== src/Location/Shared.antt =====
-- lib/models/LocationStatus.js: the object that the services of a new location have.
use backbeat.Base.{
  ◌≡◌, refl, sym, ap, ◌∙◌, Bool, true, false, none, some, List, [], ◌∷◌, arith, String, contains,
  string_eq,
}
use backbeat.Location.{
  Service, crr, ingestion, lifecycle, other, service_name, LocationStatus, ref, unpaused,
  new_status, get_service, get_service_pause_status, read_cell, pause_location,
}
use backbeat.Location.Separate.{pause-there, set_service-same, set_paused}

abbrev pub is_known : Service → Bool
is_known (other s) = false
is_known _ = true

ref-new_status :
    (services : List String) (a : Service)
    → is_known a ≡ true
    → contains services (service_name a) ≡ true
    → ref (new_status services none) a ≡ some 0
unfolding new_status
ref-new_status services crr k h = rw h refl
ref-new_status services ingestion k h = rw h refl
ref-new_status services lifecycle k h = rw h refl
ref-new_status services (other s) k h = cc

get_service-new_status :
    (services : List String) (a : Service)
    → ref (new_status services none) a ≡ some 0
    → get_service (new_status services none) a ≡ some unpaused
unfolding get_service new_status
get_service-new_status services a h = ap (read_cell (unpaused ∷ [])) h

-- Pausing one of the services that a new location, without stored state, supports pauses every other
-- one that it supports.
pub pause_location-shared :
    (services : List String) (a b : Service)
    → is_known a ≡ true
    → is_known b ≡ true
    → contains services (service_name a) ≡ true
    → contains services (service_name b) ≡ true
    → get_service_pause_status (pause_location (new_status services none) (a ∷ [])) b ≡ some true
unfolding pause_location get_service_pause_status
pause_location-shared services a b ka kb ha hb =
    let d : LocationStatus = new_status services none in
    let at_a = ref-new_status services a ka ha in
    let at_b = ref-new_status services b kb hb in
    let first = get_service-new_status services a at_a in
    rw (pause-there d a unpaused first)
      (ground (arith, set_service-same d a (set_paused true) b unpaused (at_b ∙ sym at_a) first))
