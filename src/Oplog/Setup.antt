-- ===== src/Oplog/Setup.antt =====
-- What `setup` of OplogPopulator.js makes of connectors from an earlier run.
use backbeat.Base.{
  ℕ, zero, suc, ◌<◌, ◌≡◌, ◌∙◌, refl, subst, inl, inr, Bool, true, false, not, ◌&&◌, ◌||◌, String,
  none, some, List, [], ◌∷◌, ◌++◌, arith, Option-cases, get_elem?, ◌==◌, nat_eq, string_eq,
  nat_beq_iff, contains, filter_by,
}
use mathlib.Core.Option.{some-injective}
use backbeat.Base.Assoc.{get, get-put}
use backbeat.Oplog.Connector.{Connector}
use backbeat.Oplog.Allocator.{
  get_connector, System, has, listen_to_bucket, stop_listening_to_bucket,
}
use backbeat.Oplog.Assignment.{IsAssigned, listen_to_bucket-IsAssigned}
use backbeat.Oplog.Populator.{listen_all, stop_all, buckets_of, setup_buckets}
use backbeat.Oplog.Assignment.{holds}
use backbeat.Oplog.Follows.{has-listen_to_bucket, has-stop_listening_to_bucket}

contains-append :
    (xs ys : List String) (y : String) → contains (xs ++ ys) y ≡ (contains xs y || contains ys y)
unfolding contains
contains-append [] ys y = refl
contains-append (x ∷ xs) ys y = ground (arith, contains-append xs ys y)

contains-filter :
    (p : String → Bool) (xs : List String) (y : String)
    → contains (filter_by p xs) y ≡ (p y && contains xs y)
unfolding contains filter_by
contains-filter p [] y = ground arith
contains-filter p (x ∷ xs) y = ground (arith, contains-filter p xs y, string_eq.beq_iff y x)

contains-buckets_of :
    (n i : ℕ) (cs : List Connector) (c : Connector) (y : String)
    → i < n
    → get_elem? cs i ≡ some c
    → contains c.buckets y ≡ true
    → contains (buckets_of n cs) y ≡ true
unfolding buckets_of
contains-buckets_of zero i cs c y lt at h = absurd (omega arith)
contains-buckets_of (suc n) i [] c y lt at h = absurd (ground arith)
contains-buckets_of (suc n) zero (d ∷ cs) c y lt at h = rw contains-append (ground (arith, at))
contains-buckets_of (suc n) (suc i) (d ∷ cs) c y lt at h =
    rw contains-append (ground (arith, contains-buckets_of n i cs c y (omega arith) at h))

get-listen_to_bucket :
    (s t : System) (b y : String) (now : ℕ)
    → listen_to_bucket s b none now ≡ some t
    → (y == b) ≡ false
    → get t.assigned y ≡ get s.assigned y
unfolding listen_to_bucket
get-listen_to_bucket s t b y now e ne = elim (Option-cases (get s.assigned b)) [
  | inr (i, known) ↦
      subst (λ (x : System). get x.assigned y ≡ get s.assigned y)
        (some-injective _ _ (rw (known, listen_to_bucket) at e)) refl
  | inl absent ↦ elim (Option-cases (get_connector s.connectors)) [
    | inl empty ↦ absurd (ground (arith, rw (absent, empty, listen_to_bucket) at e))
    | inr (i, chosen) ↦
        subst (λ (x : System). get x.assigned y ≡ get s.assigned y)
          (some-injective _ _ (rw (absent, chosen, listen_to_bucket) at e))
          (ground
            (arith, ne, get-put s.assigned b y i, string_eq.beq_iff y b, string_eq.beq_iff b y))
  ]
]

-- After listening to `bs`.
record Listened (s t : System) (bs : List String) : Type 0 where
  assigned : IsAssigned t
  listened : (y : String) → has t y ≡ (contains bs y || has s y)
  unchanged : (y : String) → contains bs y ≡ false → get t.assigned y ≡ get s.assigned y

listen_all-Listened :
    (bs : List String) (s t : System) (now : ℕ)
    → IsAssigned s
    → listen_all s bs now ≡ some t
    → Listened s t bs
unfolding listen_all contains
listen_all-Listened [] s t now v e =
    subst (λ x. Listened s x []) (some-injective _ _ e)
      (record { assigned = v; listened = λ y. refl; unchanged = λ y h. refl })
listen_all-Listened (b ∷ bs) s t now v e = elim (Option-cases (listen_to_bucket s b none now)) [
  | inl failed ↦ absurd (ground (arith, rw (failed, listen_all) at e))
  | inr (u, first) ↦
      let rest =
        listen_all-Listened bs u t now (listen_to_bucket-IsAssigned s b now none u v first)
          (rw (first, listen_all) at e) in
      record {
        assigned = rest.assigned;
        listened =
            λ y. ground (arith, rest.listened y, has-listen_to_bucket s u b y none now first);
        unchanged = λ y h. ground (arith, rest.unchanged y, get-listen_to_bucket s u b y now first);
      }
]

has-stop_all :
    (bs : List String) (s : System) (y : String) (now : ℕ)
    → has (stop_all s bs now) y ≡ (not (contains bs y) && has s y)
unfolding stop_all contains
has-stop_all [] s y now = refl
has-stop_all (b ∷ bs) s y now =
    has-stop_all bs (stop_listening_to_bucket s b now) y now
    ∙ ground (arith, has-stop_listening_to_bucket s b y now)

has-get : (s : System) (y : String) → has s y ≡ true → (i : ℕ) × (get s.assigned y ≡ some i)
unfolding has
has-get s y h = ground arith

-- What an old connector holds and is not valid is among the buckets that are looked through.
left_over :
    (s u : System) (old : ℕ) (valid : List String) (y : String)
    → ((b : String) (i : ℕ) → get s.assigned b ≡ some i → i < old)
    → Listened s u valid
    → contains valid y ≡ false
    → has s y ≡ true
    → contains (buckets_of old u.connectors) y ≡ true
left_over s u old valid y from after absent h =
    let (i, known) = has-get s y h in
    let same : get u.assigned y ≡ some i = after.unchanged y absent ∙ known in
    let held : holds u i y ≡ true =
      ground (arith, after.assigned.agrees y i, same, nat_beq_iff i i) in
    elim (Option-cases (get_elem? u.connectors i)) [
      | inl none_there ↦ absurd (ground (arith, held, none_there))
      | inr (c, at) ↦
          contains-buckets_of old i u.connectors c y (from y i known) at (ground (arith, held, at))
    ]

-- Let the allocator start from connectors of an earlier run, which are the first `old` ones, each
-- bucket with one of them. Then after the setup exactly the valid buckets are listened to: none is
-- missing, and what is no longer valid has been taken off.
pub has-setup_buckets :
    (s t : System) (old now : ℕ) (valid : List String) (y : String)
    → IsAssigned s
    → ((b : String) (i : ℕ) → get s.assigned b ≡ some i → i < old)
    → setup_buckets s old valid now ≡ some t
    → has t y ≡ contains valid y
unfolding setup_buckets
has-setup_buckets s t old now valid y v from e = elim (Option-cases (listen_all s valid now)) [
  | inl failed ↦ absurd (ground (arith, rw (failed, setup_buckets) at e))
  | inr (u, ok) ↦
      let after = listen_all-Listened valid s u now v ok in
      subst (λ (x : System). has x y ≡ contains valid y)
        (some-injective _ _ (rw (ok, setup_buckets) at e))
        (has-stop_all (filter_by (λ b. not (contains valid b)) (buckets_of old u.connectors)) u y
            now
          ∙ ground (
            arith,
            contains-filter (λ b. not (contains valid b)) (buckets_of old u.connectors) y,
            after.listened y,
            left_over s u old valid y from after,
          ))
]
