-- ===== src/Replication/Metadata.antt =====
-- What the code relies on in ObjectMD of arsenal.
use backbeat.Base.{
  ◌≡◌, refl, String, Option, none, some, List, [], ◌∷◌, arith, if◌then◌else◌, ◌==◌, string_eq,
}
use backbeat.Replication.{Status, Backend, ObjectMd, of_site}

-- The status of the first backend of a site.
unfoldable pub status_in : List Backend → String → Option Status
status_in [] site = none
status_in (b ∷ bs) site =
    let rest = status_in bs site in if b.site == site then some b.status else rest

unfoldable pub set_status_in : List Backend → String → Status → List Backend
set_status_in [] site status = []
set_status_in (b ∷ bs) site status =
    let rest = set_status_in bs site status in
    if b.site == site then record b { status = status } ∷ bs else b ∷ rest

unfoldable pub set_version_in : List Backend → String → Option String → List Backend
set_version_in [] site version = []
set_version_in (b ∷ bs) site version =
    let rest = set_version_in bs site version in
    if b.site == site then record b { data_store_version_id = version } ∷ bs else b ∷ rest

-- The setters set what they are named for, and a clone has the backends of its original, also when a status
-- is set in it.
pub record IsObjectMd {M : Type 0} (md : ObjectMd M) : Type 0 where
  pub site_status_lem :
      (m : M) (site : String) → md.site_status m site ≡ status_in (md.backends m) site
  pub clone_backends : (m : M) → md.backends (md.clone m) ≡ md.backends m
  pub set_site_status_backends :
      (m : M) (site : String) (status : Status)
      → md.backends (md.set_site_status m site status) ≡ set_status_in (md.backends m) site status
  pub shared_backends :
      (m : M) (site : String) (status : Status)
      → md.backends (md.original_after m (md.set_site_status (md.clone m) site status))
        ≡ md.backends (md.set_site_status (md.clone m) site status)
  pub set_backends_lem : (m : M) (l : List Backend) → md.backends (md.set_backends m l) ≡ l
  pub set_replication_status_lem :
      (m : M) (status : Status)
      → md.replication_status (md.set_replication_status m status) ≡ status
  pub set_replication_status_backends :
      (m : M) (status : Status) → md.backends (md.set_replication_status m status) ≡ md.backends m
  pub set_storage_class_backends :
      (m : M) (site : String) → md.backends (md.set_storage_class m site) ≡ md.backends m
  pub set_version_backends :
      (m : M) (site : String) (version : Option String)
      → md.backends (md.set_site_version_id m site version)
        ≡ set_version_in (md.backends m) site version
  pub set_version_status :
      (m : M) (site : String) (version : Option String)
      → md.replication_status (md.set_site_version_id m site version) ≡ md.replication_status m
  pub clear_backends : (m : M) → md.backends (md.clear_origin_op m) ≡ md.backends m
  pub clear_status :
      (m : M) → md.replication_status (md.clear_origin_op m) ≡ md.replication_status m

pub status_in-set_status_in :
    (bs : List Backend) (site t : String) (status : Status)
    → status_in (set_status_in bs site status) t ≡ (
        if site == t
        then (elim (status_in bs site) [ none ↦ none | some _ ↦ some status ])
        else status_in bs t)
unfolding status_in set_status_in
status_in-set_status_in [] site t status = ground arith
status_in-set_status_in (b ∷ bs) site t status = ground (
  arith,
  status_in-set_status_in bs site t status,
  string_eq.beq_iff b.site site,
  string_eq.beq_iff site t,
  string_eq.beq_iff b.site t,
)

pub status_in-set_version_in :
    (bs : List Backend) (site t : String) (version : Option String)
    → status_in (set_version_in bs site version) t ≡ status_in bs t
unfolding status_in set_version_in
status_in-set_version_in [] site t version = refl
status_in-set_version_in (b ∷ bs) site t version =
    ground (arith, status_in-set_version_in bs site t version)

pub status_in-of_site :
    (bs : List Backend) (site : String) → status_in (of_site bs site) site ≡ status_in bs site
unfolding status_in of_site
status_in-of_site [] site = refl
status_in-of_site (b ∷ bs) site = ground (arith, status_in-of_site bs site)
