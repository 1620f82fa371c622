-- ===== src/Oplog/Balance.antt =====
-- extensions/oplogPopulator: how full the connectors are.
use backbeat.Base.{
  All, All-of_get, All-get, ℕ, ◌+◌, ◌≤◌, ◌≡◌, ◌∙◌, ap, subst, inl, inr, false, String, Option, some,
  List, [], ◌∷◌, arith, length, length-append, Bool-cases, Option-cases, get_elem?, ◌==◌, nat_eq,
  string_eq, nat_beq_iff, contains,
}
use mathlib.Core.Option.{some-injective}
use backbeat.Base.Assoc.{get}
use backbeat.Oplog.Connector.{Connector, bucket_count, add_bucket}
use backbeat.Oplog.Allocator.{get_connector, update_at, System, resume_at, listen_to_bucket}
use backbeat.Oplog.LeastFull.{IsLeast, get_connector-IsLeast}
use backbeat.Oplog.Assignment.{IsAssigned, get_elem?-update_at, buckets-resume_at}

-- Each connector has `k` buckets or one more.
abbrev HasAbout : ℕ → Connector → Type 0
HasAbout k c = (k ≤ bucket_count c) × (bucket_count c ≤ k + 1)

abbrev pub IsBalanced : ℕ → List Connector → Type 0
IsBalanced k = All (HasAbout k)

bucket_count-add_bucket :
    (c : Connector) (b : String) (now : ℕ)
    → contains c.buckets b ≡ false
    → bucket_count (add_bucket c b now) ≡ bucket_count c + 1
unfolding add_bucket
bucket_count-add_bucket c b now absent = ground (arith, length-append c.buckets (b ∷ []))

update_at-IsBalanced :
    (cs : List Connector) (k i : ℕ) (c : Connector) (f : Connector → Connector)
    → get_elem? cs i ≡ some c
    → IsLeast cs (bucket_count c)
    → bucket_count (f c) ≡ bucket_count c + 1
    → IsBalanced k cs
    → IsBalanced (bucket_count c) (update_at cs i f)
update_at-IsBalanced cs k i c f at least more h =
    All-of_get (HasAbout (bucket_count c)) (update_at cs i f) λ j d here.
      elim (Bool-cases (j == i)) [
        | inl e ↦ ground (arith, at, get_elem?-update_at cs i j f, nat_beq_iff j i)
        | inr e ↦
            let same : get_elem? cs j ≡ some d =
              ground (arith, e, here, get_elem?-update_at cs i j f) in
            omega (
              arith,
              least j d same,
              All-get (HasAbout k) cs j d h same,
              All-get (HasAbout k) cs i c h at,
            )
      ]

-- Let the map of the allocator give for every bucket the one connector that has it. If any two
-- connectors differ by at most one bucket, so they do after a call of `listenToBucket` that ends
-- without an error.
pub listen_to_bucket-IsBalanced :
    (s t : System) (b : String) (date : Option String) (now k : ℕ)
    → IsAssigned s
    → IsBalanced k s.connectors
    → listen_to_bucket s b date now ≡ some t
    → (k' : ℕ) × IsBalanced k' t.connectors
unfolding listen_to_bucket
listen_to_bucket-IsBalanced s t b date now k v h e = elim (Option-cases (get s.assigned b)) [
  | inr (i, known) ↦ (
    k,
    subst (λ x. IsBalanced k x.connectors) (some-injective _ _ (rw (known, listen_to_bucket) at e))
        h,
  )
  | inl absent ↦ elim (Option-cases (get_connector s.connectors)) [
    | inl empty ↦ absurd (ground (arith, rw (absent, empty, listen_to_bucket) at e))
    | inr (i, chosen) ↦
        let (c, at, least) = get_connector-IsLeast s.connectors i chosen in
        let more : bucket_count (add_bucket (resume_at date c) b now) ≡ bucket_count c + 1 =
          bucket_count-add_bucket (resume_at date c) b now
            (ground (arith, buckets-resume_at date c, v.agrees b i, at, absent))
          ∙ ap (λ (bs : List String). length bs + 1) (buckets-resume_at date c) in
        (
          bucket_count c,
          subst (λ x. IsBalanced (bucket_count c) x.connectors)
              (some-injective _ _ (rw (absent, chosen, listen_to_bucket) at e))
              (update_at-IsBalanced s.connectors k i c (λ x. add_bucket (resume_at date x) b now) at
                least more h),
        )
  ]
]
