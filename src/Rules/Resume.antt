-- ===== src/Rules/Resume.antt =====
-- extensions/lifecycle/tasks: listings that span several pages, and tries that are made again.
use mathlib.Core.Option.{none-ne-some, some-injective}
use backbeat.Base.{
  if_true, All, false, not, Option-cases, Bool-cases, inl, inr, subst, sym, ap, ap₂, ◌∙◌, ◌&&◌, ℕ,
  suc, ◌≡◌, refl, Bool, true, ◌||◌, String, none, some, List, [], ◌∷◌, ◌++◌, arith, if◌then◌else◌,
  ◌==◌, nat_eq, string_eq, contains,
}
use backbeat.Rules.Rule.{Rule}
use backbeat.Rules.Reducer.{given_class, Listings, new_reducer, to_listings}
use backbeat.Rules.Days.{Options}
use backbeat.Rules.Params.{
  Env, Details, Params, Info, current_type, non_current_type, orphan_dm_type, list_types,
  rules_to_params, ListParams, get_params_from_listings, get_params_from_details, merge_params,
}
use backbeat.Rules.Task.{
  MarkerInfo, Page, Response, page, continuation, requeued, get_object_list, get_object_versions,
  given, skip_entry, skipped, Outcome, send_next,
}
use backbeat.Rules.Requeue.{
  info_of, list_type_given, requested, IsListType, given_class-given_class, merge_params-IsListType,
}
use backbeat.Rules.Process.{
  failed_before, Attempt, status_given, info_at, IsAnswered, process_bucket_entry, list_objects,
  processed, first_try, asks, found_params,
}

-- The request for the page after this one.
abbrev pub next_request : String → Params → MarkerInfo → Params
next_request list_type p m = record p {
  marker = if list_type == current_type || list_type == orphan_dm_type then m.marker else none;
  key_marker = if list_type == non_current_type then m.key_marker else none;
  version_id_marker = if list_type == non_current_type then m.version_id_marker else none;
}

-- A request that `rulesToParams` may have made, for the bucket.
pub record IsRequest (env : Env) (bucket : String) (p : Params) : Type 0 where
  pub same_bucket : p.bucket ≡ bucket
  pub same_keys : p.max_keys ≡ env.max_keys
  pub class_given : given_class p.excluded_data_store_name ≡ p.excluded_data_store_name

module _ (env : Env) (precedes : String → String → Bool) (versioning_status : String) (now : ℕ)
    (rules : List Rule) (bucket : String) (options : Options) where
  continuation-next_request :
      (t : String) (p : Params) (m : MarkerInfo)
      → contains list_types t ≡ true
      → IsRequest env bucket p
      → (info_of env precedes versioning_status now rules bucket options
          (continuation (some t) p m)).params
        ≡ some (next_request t p m)
  unfolding rules_to_params continuation
  continuation-next_request t p m valid h =
      rw (list_type_given t valid, valid, ← h.same_bucket, ← h.same_keys, h.class_given) refl

  continuation-type :
      (t : String) (p : Params) (m : MarkerInfo)
      → contains list_types t ≡ true
      → (info_of env precedes versioning_status now rules bucket options
          (continuation (some t) p m)).list_type
        ≡ some t
  unfolding rules_to_params continuation
  continuation-type t p m valid = rw (list_type_given t valid, valid) refl

-- What is found is a request with the type of a listing.
record IsFound (env : Env) (bucket : String) (info : Info) (p : Params) : Type 0 where
  t : String
  has_type : info.list_type ≡ some t
  valid : contains list_types t ≡ true
  is_request : IsRequest env bucket p

module _ (env : Env) (bucket : String) (p : Params) where
  from_list :
      (now : ℕ) (found : Listings) (ls : List ListParams)
      → merge_params env now found ≡ ls
      → All IsListType ls
      → (get_params_from_listings env bucket now found).params ≡ some p
      → IsFound env bucket (get_params_from_listings env bucket now found) p
  unfolding get_params_from_listings
  from_list now found [] asked valid h =
      absurd (none-ne-some _ (rw (asked, get_params_from_listings) at h))
  from_list now found (l ∷ ls) asked valid h =
      rw (asked, get_params_from_listings)
        (record {
          t = l.list_type;
          has_type = refl;
          valid = valid.0;
          is_request =
              subst (IsRequest env bucket)
                (some-injective _ _ (rw (asked, get_params_from_listings) at h))
                (record {
                  same_bucket = refl;
                  same_keys = refl;
                  class_given = given_class-given_class l.storage_class;
                });
        })

  from_details :
      (t : String) (details : Details)
      → (get_params_from_details env bucket t details).params ≡ some p
      → IsFound env bucket (get_params_from_details env bucket t details) p
  unfolding get_params_from_details
  from_details t details h = elim (Bool-cases (contains list_types t)) [
    | inr e ↦ absurd (none-ne-some _ (rw (e, get_params_from_details) at h))
    | inl e ↦
        rw (e, get_params_from_details)
          (record {
            t = t;
            has_type = refl;
            valid = e;
            is_request =
                subst (IsRequest env bucket)
                  (some-injective _ _ (rw (e, get_params_from_details) at h))
                  (record {
                    same_bucket = refl;
                    same_keys = refl;
                    class_given = given_class-given_class details.storage_class;
                  });
          })
  ]

  found :
      (precedes : String → String → Bool) (status : String) (now : ℕ) (rules : List Rule)
      (options : Options) (details : Details)
      → (info_of env precedes status now rules bucket options details).params ≡ some p
      → IsFound env bucket (info_of env precedes status now rules bucket options details) p
  unfolding rules_to_params
  found precedes status now rules options details h =
      let listings = to_listings (new_reducer precedes status now rules options) in
      let fresh = from_list now listings _ refl (merge_params-IsListType env now listings) in
      elim (Option-cases details.list_type) [
        | inl e ↦ rw e (fresh (rw e at h))
        | inr (t, e) ↦ elim (Bool-cases (t == "")) [
          | inl f ↦ rw (e, f) (fresh (rw (e, f) at h))
          | inr f ↦ rw (e, f) (from_details t details (rw (e, f) at h))
        ]
      ]

guarded : Bool → Bool → Bool → Outcome → Outcome
guarded skips no_uploads no_versioning o =
    if skips
    then skipped
    else if no_uploads
    then failed_before
    else if no_versioning
    then failed_before
    else o

unguarded :
    (b c d : Bool) (o : Outcome) (p : Params)
    → (guarded b c d o).listed ≡ some p
    → guarded b c d o ≡ o
unfolding guarded
unguarded true c d o p h = absurd (none-ne-some _ h)
unguarded false true d o p h = absurd (none-ne-some _ h)
unguarded false false true o p h = absurd (none-ne-some _ h)
unguarded false false false o p h = refl

module _ (env : Env) (precedes : String → String → Bool) (bucket : String) where
  -- An entry that leads to a request was handled.
  handled :
      (a : Attempt) (details : Details) (p : Params)
      → (process_bucket_entry env precedes bucket a false details).listed ≡ some p
      → process_bucket_entry env precedes bucket a false details
        ≡ list_objects env precedes bucket a details
  unfolding process_bucket_entry guarded
  handled a details p h =
      unguarded (skip_entry details)
        (not (given details.version_id_marker || given details.marker) && not a.uploads_ok)
        (not a.versioning_ok) (list_objects env precedes bucket a details) p h

  goes_on :
      (t : String) (p : Params) (m : MarkerInfo)
      → contains list_types t ≡ true
      → skip_entry (continuation (some t) p m) ≡ false
  unfolding skip_entry continuation
  goes_on t p m valid = rw (list_type_given t valid) (ground arith)

  -- Let an entry, at its first try, lead to a request, of which the answer is cut short. Then the last
  -- entry that it sends, at any try with the requests for uploads and versioning answered, whatever the
  -- time, the rules, the options and the versioning are by then, asks for the next page of the same
  -- listing. Its type, prefix, date and excluded class stay, and the markers are those of the answer that
  -- its type of listing reads.
  pub next_page_resumes :
      (a : Attempt) (details : Details) (p : Params) (pg : Page) (failed : Bool)
      → (process_bucket_entry env precedes bucket a false details).listed ≡ some p
      → a.nb_retries ≡ 0
      → a.response ≡ page pg failed
      → pg.is_truncated ≡ true
      → (let run = process_bucket_entry env precedes bucket a false details in
          (t : String) × (front : List Details) × (last : Details) × (run.listed_type ≡ some t)
          × (run.sent ≡ front ++ last ∷ [])
          × ((later : Attempt)
              → IsAnswered env precedes bucket later
              → requested (process_bucket_entry env precedes bucket later false last)
                ≡ (some (next_request t p pg.marker_info), some t)))
  unfolding send_next
  next_page_resumes a details p pg failed lists zeroth cut_by cut =
      let at = handled a details p lists in
      let has_params =
        found_params env precedes bucket a details p
          (sym (ap (λ (o : Outcome). o.listed) at) ∙ lists) in
      let f =
        found env bucket p precedes (status_given a) a.now a.rules a.options details has_params in
      let try = first_try env precedes bucket a details p zeroth has_params in
      let last = continuation (some f.t) p pg.marker_info in
      (
        f.t,
        requeued (info_at env precedes bucket a details) 0,
        last,
        ap (λ (o : Outcome). o.listed_type) at ∙ try.listed_type ∙ f.has_type,
        ap (λ (o : Outcome). o.sent) at
            ∙ try.sent_page pg failed cut_by
            ∙ ap (λ ds. requeued (info_at env precedes bucket a details) 0 ++ ds)
                (if_true {b = pg.is_truncated && true} _ _ (rw cut refl)
                  ∙ ap (λ t. continuation t p pg.marker_info ∷ []) f.has_type),
        λ later ok.
            let asked = asks env precedes bucket later last (next_request f.t p pg.marker_info) (
              continuation-next_request env precedes (status_given later) later.now later.rules
                bucket later.options f.t p pg.marker_info f.valid f.is_request) in
            ap requested
              (processed env precedes bucket later last ok (goes_on f.t p pg.marker_info f.valid))
            ∙ ap₂ (λ q t. (q, t)) asked.0
                (asked.1
                  ∙ continuation-type env precedes (status_given later) later.now later.rules bucket
                      later.options f.t p pg.marker_info f.valid),
      )

-- A step that is tried again makes the same request and sends no entry a second time.
pub retry_sends_nothing :
    (info : Info) (n : ℕ) (r r' : Response)
    → ((get_object_list info (suc n) r).sent ≡ [])
      × ((get_object_versions info (suc n) r).sent ≡ [])
      × ((get_object_list info (suc n) r).listed ≡ (get_object_list info 0 r').listed)
      × ((get_object_versions info (suc n) r).listed ≡ (get_object_list info 0 r').listed)
unfolding get_object_list get_object_versions
retry_sends_nothing info n r r' = (ground arith, ground arith, ground arith, ground arith)
