-- ===== src/Oplog/Assignment.antt =====
-- extensions/oplogPopulator/modules/Allocator.js: the allocator's map and the connectors' sets of buckets.
use backbeat.Base.{
  ℕ, zero, suc, ◌≡◌, ◌∙◌, subst, inl, inr, Bool, false, not, ◌&&◌, ◌||◌, String, Option, none, some,
  List, [], ◌∷◌, ◌++◌, arith, if◌then◌else◌, Option-cases, get_elem?, ◌==◌, nat_eq, string_eq,
  nat_beq_iff, contains, filter_by,
}
use backbeat.Base.Assoc.{Assoc, get, put, remove, get-put, get-remove}
use mathlib.Core.Option.{some-injective}
use backbeat.Oplog.LeastFull.{get_connector-IsLeast}
use backbeat.Oplog.Connector.{Connector, set_resume_point, add_bucket, remove_bucket}
use backbeat.Oplog.Allocator.{
  get_connector, update_at, System, resume_at, listen_to_bucket, stop_listening_to_bucket,
}

abbrev pub holds_at : Option Connector → String → Bool
holds_at none b = false
holds_at (some c) b = contains c.buckets b

-- Whether the connector of this index has the bucket in its set.
abbrev pub holds : System → ℕ → String → Bool
holds s i b = holds_at (get_elem? s.connectors i) b

abbrev pub is_index : Option ℕ → ℕ → Bool
is_index none i = false
is_index (some j) i = i == j

-- A connector has a bucket exactly if the map says so. So no two have the same.
pub record IsAssigned (s : System) : Type 0 where
  pub agrees : (b : String) (i : ℕ) → holds s i b ≡ is_index (get s.assigned b) i

pub get_elem?-update_at :
    (cs : List Connector) (i j : ℕ) (f : Connector → Connector)
    → get_elem? (update_at cs i f) j ≡ (
        if j == i
        then elim (get_elem? cs j) [ none ↦ none | some c ↦ some (f c) ]
        else get_elem? cs j)
unfolding update_at
get_elem?-update_at [] i j f = ground arith
get_elem?-update_at (c ∷ cs) zero zero f = ground arith
get_elem?-update_at (c ∷ cs) zero (suc j) f = ground arith
get_elem?-update_at (c ∷ cs) (suc i) zero f = ground arith
get_elem?-update_at (c ∷ cs) (suc i) (suc j) f = get_elem?-update_at cs i j f ∙ ground arith

contains-append_text :
    (xs : List String) (x y : String) → contains (xs ++ x ∷ []) y ≡ (y == x || contains xs y)
unfolding contains
contains-append_text [] x y = ground arith
contains-append_text (z ∷ xs) x y = ground (arith, contains-append_text xs x y)

contains-filter_text :
    (xs : List String) (x y : String)
    → contains (filter_by (λ b. not (b == x)) xs) y ≡ (not (y == x) && contains xs y)
unfolding contains filter_by
contains-filter_text [] x y = ground arith
contains-filter_text (z ∷ xs) x y =
    ground (arith, contains-filter_text xs x y, string_eq.beq_iff y z)

pub contains-add_bucket :
    (c : Connector) (b y : String) (now : ℕ)
    → contains (add_bucket c b now).buckets y ≡ (y == b || contains c.buckets y)
unfolding add_bucket
contains-add_bucket c b y now =
    ground (arith, contains-append_text c.buckets b y, string_eq.beq_iff y b)

pub contains-remove_bucket :
    (c : Connector) (b y : String) (now : ℕ)
    → contains (remove_bucket c b now).buckets y ≡ (not (y == b) && contains c.buckets y)
unfolding remove_bucket
contains-remove_bucket c b y now = ground (arith, contains-filter_text c.buckets b y)

pub buckets-resume_at : (d : Option String) (c : Connector) → (resume_at d c).buckets ≡ c.buckets
unfolding resume_at set_resume_point
buckets-resume_at d c = ground arith

-- What is held after one connector has changed.
holds-update_at :
    (cs : List Connector) (m m' : Assoc String ℕ) (i j : ℕ) (f : Connector → Connector) (b : String)
    → holds (record { connectors = update_at cs i f; assigned = m' }) j b ≡ (
        if j == i
        then elim (get_elem? cs j) [ none ↦ false | some c ↦ contains (f c).buckets b ]
        else holds (record { connectors = cs; assigned = m }) j b)
holds-update_at cs m m' i j f b = ground (arith, get_elem?-update_at cs i j f)

module _ (s : System) (b : String) (now : ℕ) where
  listened : Option String → ℕ → System
  listened date i = record {
    connectors = update_at s.connectors i (λ c. add_bucket (resume_at date c) b now);
    assigned = put s.assigned b i;
  }

  listened-IsAssigned :
      (date : Option String) (i : ℕ) (c : Connector)
      → get s.assigned b ≡ none
      → get_elem? s.connectors i ≡ some c
      → IsAssigned s
      → IsAssigned (listened date i)
  unfolding listened
  listened-IsAssigned date i c absent at h = record {
    agrees = λ y j.
        rw (holds-update_at s.connectors s.assigned (put s.assigned b i) i j _ y, get-put)
          (ground (
            arith,
            at,
            absent,
            h.agrees y j,
            h.agrees b j,
            contains-add_bucket (resume_at date c) b y now,
            buckets-resume_at date c,
            string_eq.beq_iff b y,
            string_eq.beq_iff y b,
            nat_beq_iff j i,
          ));
  }

  -- Where the map of the allocator gives for every bucket the one connector that has it, it does so
  -- still after a call of `listenToBucket` that ends without an error.
  pub listen_to_bucket-IsAssigned :
      (date : Option String) (t : System)
      → IsAssigned s
      → listen_to_bucket s b date now ≡ some t
      → IsAssigned t
  unfolding listen_to_bucket listened
  listen_to_bucket-IsAssigned date t h e = elim (Option-cases (get s.assigned b)) [
    | inr (i, known) ↦ subst IsAssigned (some-injective _ _ (rw (known, listen_to_bucket) at e)) h
    | inl absent ↦ elim (Option-cases (get_connector s.connectors)) [
      | inl empty ↦ absurd (ground (arith, rw (absent, empty, listen_to_bucket) at e))
      | inr (i, chosen) ↦
          let (c, at, _) = get_connector-IsLeast s.connectors i chosen in
          subst IsAssigned (some-injective _ _ (rw (absent, chosen, listen_to_bucket) at e))
            (listened-IsAssigned date i c absent at h)
    ]
  ]

  stopped : ℕ → System
  stopped i = record {
    connectors = update_at s.connectors i (λ c. remove_bucket c b now);
    assigned = remove s.assigned b;
  }

  stopped-IsAssigned : (i : ℕ) → get s.assigned b ≡ some i → IsAssigned s → IsAssigned (stopped i)
  unfolding stopped
  stopped-IsAssigned i known h = record {
    agrees = λ y j.
        rw (holds-update_at s.connectors s.assigned (remove s.assigned b) i j _ y, get-remove)
          (elim (Option-cases (get_elem? s.connectors j)) [
            | inl e ↦ ground (
              arith,
              e,
              known,
              h.agrees y j,
              h.agrees b j,
              string_eq.beq_iff b y,
              nat_beq_iff j i,
            )
            | inr (c, e) ↦ ground (
              arith,
              e,
              known,
              h.agrees y j,
              h.agrees b j,
              contains-remove_bucket c b y now,
              string_eq.beq_iff b y,
              string_eq.beq_iff y b,
              nat_beq_iff j i,
            )
          ]);
  }

  -- Where the map of the allocator gives for every bucket the one connector that has it, it does so
  -- still after a call of `stopListeningToBucket`.
  pub stop_listening_to_bucket-IsAssigned :
      IsAssigned s → IsAssigned (stop_listening_to_bucket s b now)
  unfolding stop_listening_to_bucket stopped
  stop_listening_to_bucket-IsAssigned h = elim (Option-cases (get s.assigned b)) [
    | inl absent ↦ rw (absent, stop_listening_to_bucket) h
    | inr (i, known) ↦ rw (known, stop_listening_to_bucket) (stopped-IsAssigned i known h)
  ]
