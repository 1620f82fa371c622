-- ===== src/Oplog/Total.antt =====
-- extensions/oplogPopulator/modules/Allocator.js: the errors of the allocator.
use backbeat.Base.{
  ℕ, zero, suc, ◌<◌, ◌≡◌, refl, inl, inr, Bool, String, Option, none, some, List, [], ◌∷◌, arith,
  Option-cases, length, string_eq,
}
use backbeat.Base.Assoc.{get}
use backbeat.Oplog.Connector.{Connector}
use backbeat.Oplog.Allocator.{get_connector, System, listen_to_bucket, update_at}
use backbeat.Oplog.Populator.{Change, handle_change, listen_all, setup_buckets}

length-update_at :
    (cs : List Connector) (i : ℕ) (f : Connector → Connector)
    → length (update_at cs i f) ≡ length cs
unfolding update_at
length-update_at [] i f = refl
length-update_at (c ∷ cs) zero f = refl
length-update_at (c ∷ cs) (suc i) f = ground (arith, length-update_at cs i f)

get_connector-some : (cs : List Connector) → 0 < length cs → (i : ℕ) × (get_connector cs ≡ some i)
unfolding get_connector
get_connector-some [] h = absurd (omega arith)
get_connector-some (c ∷ cs) h = (_, refl)

pub listen_to_bucket-some :
    (s : System) (b : String) (date : Option String) (now : ℕ)
    → 0 < length s.connectors
    → (t : System) × (listen_to_bucket s b date now ≡ some t)
      × (length t.connectors ≡ length s.connectors)
unfolding listen_to_bucket
listen_to_bucket-some s b date now h = elim (Option-cases (get s.assigned b)) [
  | inr (i, known) ↦ rw (known, listen_to_bucket) (s, refl, refl)
  | inl absent ↦
      let (i, chosen) = get_connector-some s.connectors h in
      rw (absent, chosen, listen_to_bucket) (_, refl, length-update_at s.connectors i _)
]

listen_all-some :
    (s : System) (bs : List String) (now : ℕ)
    → 0 < length s.connectors
    → (t : System) × (listen_all s bs now ≡ some t)
unfolding listen_all
listen_all-some s [] now h = (s, refl)
listen_all-some s (b ∷ bs) now h =
    let (t, ok, same) = listen_to_bucket-some s b none now h in
    rw (ok, listen_all) (listen_all-some t bs now (omega (arith, same, h)))

-- With at least one connector the setup ends without an error of the allocator, whatever buckets are
-- valid.
pub setup_buckets-some :
    (s : System) (old now : ℕ) (valid : List String)
    → 0 < length s.connectors
    → (t : System) × (setup_buckets s old valid now ≡ some t)
unfolding setup_buckets
setup_buckets-some s old now valid h =
    let (t, ok) = listen_all-some s valid now h in rw (ok, setup_buckets) (_, refl)

-- With at least one connector every change event is handled without an error of the allocator.
pub handle_change-some :
    {M : Type 0}
    → (tests : List (M → Bool)) (s : System) (change : Change M) (now : ℕ) → 0 < length s.connectors
    → (t : System) × (handle_change tests s change now ≡ some t)
unfolding handle_change
handle_change-some tests s change now h =
    let (t, ok, _) = listen_to_bucket-some s change.bucket (some change.event_date) now h in
    elim (Option-cases (handle_change tests s change now)) [
      | inr e ↦ e
      | inl e ↦ absurd (ground (arith, ok, e))
    ]
