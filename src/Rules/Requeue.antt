-- ===== src/Rules/Requeue.antt =====
-- extensions/lifecycle/tasks: the entries of the bucket topic that a first listing sends, and the listings that
-- they lead to.
use backbeat.Base.{
  ℕ, ◌≡◌, ◌∙◌, refl, ap, ap₂, subst, if_same, Option-cases, inl, inr, Bool, true, false, String,
  Option, none, some, List, [], ◌∷◌, ◌++◌, map, arith, Bool-cases, All, All-append, ◌==◌, nat_eq,
  string_eq, contains,
}
use backbeat.Rules.Rule.{Rule}
use backbeat.Rules.Reducer.{Listing, Listings, given_class, new_reducer, to_listings}
use backbeat.Rules.Days.{Options}
use backbeat.Rules.Params.{
  Env, ListParams, Details, Params, Info, current_type, non_current_type, orphan_dm_type,
  list_types, make_list_params, merge_params, get_params_from_listings, rules_to_params,
}
use backbeat.Rules.Task.{
  given, skip_entry, Outcome, details_of, handle_remaining_listings, requeued,
}
use backbeat.Rules.Process.{
  Attempt, status_given, IsAnswered, process_bucket_entry, processed, first_try, asks,
}

pub given_class-given_class : (c : Option String) → given_class (given_class c) ≡ given_class c
given_class-given_class none = refl
given_class-given_class (some c) = elim (Bool-cases (c == "")) [
  | inl e ↦ rw e refl
  | inr e ↦ rw (e, e) refl
]

module _ (env : Env) (bucket : String) where
  -- The request for a listing from its start.
  abbrev pub first_request : ListParams → Params
  first_request l = record {
    bucket = bucket;
    prefix = some l.prefix;
    max_keys = env.max_keys;
    marker = none;
    key_marker = none;
    version_id_marker = none;
    before_date = l.before_date;
    excluded_data_store_name = given_class l.storage_class;
  }

abbrev pub IsListType : ListParams → Type 0
IsListType l = contains list_types l.list_type ≡ true

make_list_params-IsListType :
    (env : Env) (now : ℕ) (list_type : String) (ls : List Listing)
    → contains list_types list_type ≡ true
    → All IsListType (map (make_list_params env list_type now) ls)
unfolding make_list_params
make_list_params-IsListType env now list_type [] h = tt
make_list_params-IsListType env now list_type (l ∷ ls) h =
    (h, make_list_params-IsListType env now list_type ls h)

pub merge_params-IsListType :
    (env : Env) (now : ℕ) (ls : Listings) → All IsListType (merge_params env now ls)
unfolding merge_params contains
merge_params-IsListType env now ls =
    All-append IsListType (map (make_list_params env current_type now) ls.currents) _
      (make_list_params-IsListType env now current_type ls.currents refl)
      (All-append IsListType (map (make_list_params env non_current_type now) ls.non_currents) _
        (make_list_params-IsListType env now non_current_type ls.non_currents refl)
        (make_list_params-IsListType env now orphan_dm_type ls.orphans refl))

empty_text : (t : String) → given (some t) ≡ false → (t == "") ≡ true
empty_text t h = ground arith

pub list_type_given : (s : String) → contains list_types s ≡ true → (s == "") ≡ false
unfolding contains
list_type_given s h = elim (Bool-cases (s == "")) [
  | inl e ↦ cc (subst (λ t. contains list_types t ≡ true) ((string_eq.beq_iff s "").0 e) h)
  | inr e ↦ e
]

module _ (env : Env) (precedes : String → String → Bool) (versioning_status : String) (now : ℕ)
    (rules : List Rule) (bucket : String) (options : Options) where
  -- What an entry with these details makes of the bucket's rules.
  abbrev pub info_of : Details → Info
  info_of details = rules_to_params env precedes versioning_status now rules bucket details options

  details_of-first_request :
      (l : ListParams)
      → IsListType l
      → (info_of (details_of l)).params ≡ some (first_request env bucket l)
  unfolding rules_to_params details_of
  details_of-first_request l valid = rw (list_type_given l.list_type valid, valid) (simp if_same)

  details_of-type :
      (l : ListParams) → IsListType l → (info_of (details_of l)).list_type ≡ some l.list_type
  unfolding rules_to_params details_of
  details_of-type l valid = rw (list_type_given l.list_type valid, valid) refl

module _ (env : Env) (precedes : String → String → Bool) (versioning_status : String) (now : ℕ)
    (rules : List Rule) (bucket : String) (options : Options) where
  -- The listings that the rules ask for at this time.
  abbrev pub wanted : List ListParams
  wanted =
      merge_params env now (to_listings (new_reducer precedes versioning_status now rules options))

  abbrev first_info : ListParams → List ListParams → Info
  first_info l ls = record {
    params = some (first_request env bucket l);
    list_type = some l.list_type;
    remainings = ls;
  }

  listings-first :
      (found : Listings) (l : ListParams) (ls : List ListParams)
      → merge_params env now found ≡ l ∷ ls
      → get_params_from_listings env bucket now found ≡ first_info l ls
  unfolding get_params_from_listings
  listings-first found l ls asked = rw (asked, get_params_from_listings) refl

  info-first :
      (details : Details) (l : ListParams) (ls : List ListParams)
      → given details.list_type ≡ false
      → wanted ≡ l ∷ ls
      → info_of env precedes versioning_status now rules bucket options details ≡ first_info l ls
  unfolding rules_to_params
  info-first details l ls absent asked =
      let first =
        listings-first (to_listings (new_reducer precedes versioning_status now rules options)) l ls
          asked in
      elim (Option-cases details.list_type) [
        | inl e ↦ rw e first
        | inr (t, e) ↦ rw (e, empty_text t (rw e at absent)) first
      ]

-- The request of a try with the type of its listing.
abbrev pub requested : Outcome → Option Params × Option String
requested o = (o.listed, o.listed_type)

module _ (env : Env) (precedes : String → String → Bool) (bucket : String) where
  -- The listings that the rules ask for at a try.
  abbrev pub wanted_at : Attempt → List ListParams
  wanted_at a = wanted env precedes (status_given a) a.now a.rules bucket a.options

  not_skipped : (l : ListParams) → skip_entry (details_of l) ≡ false
  unfolding skip_entry details_of
  not_skipped l = refl

  sent_requests :
      (ls : List ListParams)
      → All IsListType ls
      → (a : Attempt) → IsAnswered env precedes bucket a
      → map
          (λ d. requested (process_bucket_entry env precedes bucket a false d))
          (map details_of ls)
        ≡ map (λ k. (some (first_request env bucket k), some k.list_type)) ls
  sent_requests [] valid a ok = refl
  sent_requests (l ∷ ls) valid a ok =
      let at = processed env precedes bucket a (details_of l) ok (not_skipped l) in
      let asked = asks env precedes bucket a (details_of l) (first_request env bucket l) (
        details_of-first_request env precedes (status_given a) a.now a.rules bucket a.options l
          valid.0) in
      let typed =
        details_of-type env precedes (status_given a) a.now a.rules bucket a.options l valid.0 in
      ap₂ ◌∷◌ (ap requested at ∙ ap₂ (λ p t. (p, t)) asked.0 (asked.1 ∙ typed))
        (sent_requests ls valid.1 a ok)

  -- An entry that names no listing and no marker, at its first try, with its requests for uploads and
  -- versioning answered, makes the first listing that the rules ask for. Whatever the answer to this one,
  -- it sends an entry for each of the others, in their order. Each of these, at any try with these requests
  -- answered, whatever the time, the rules, the options and the versioning are by then, makes the very
  -- request that was asked for, with the type of its listing and the date that was computed here.
  pub requests_complete :
      (a : Attempt) (details : Details) (l : ListParams) (ls : List ListParams)
      → given details.list_type ≡ false
      → given details.marker ≡ false
      → given details.version_id_marker ≡ false
      → IsAnswered env precedes bucket a
      → a.nb_retries ≡ 0
      → wanted_at a ≡ l ∷ ls
      → (let run = process_bucket_entry env precedes bucket a false details in
          (requested run ≡ (some (first_request env bucket l), some l.list_type))
          × (entries : List Details) × (next : List Details) × (run.sent ≡ entries ++ next)
          × ((later : Attempt)
              → IsAnswered env precedes bucket later
              → map
                  (λ d. requested (process_bucket_entry env precedes bucket later false d))
                  entries
                ≡ map (λ k. (some (first_request env bucket k), some k.list_type)) ls))
  unfolding skip_entry handle_remaining_listings
  requests_complete a details l ls absent no_marker no_version ok zeroth asked =
      let at_first =
        info-first env precedes (status_given a) a.now a.rules bucket a.options details l ls absent
          asked in
      let at = processed env precedes bucket a details ok (rw (no_version, no_marker) refl) in
      let try =
        first_try env precedes bucket a details (first_request env bucket l) zeroth
          (ap (λ (i : Info). i.params) at_first) in
      let valid : All IsListType (l ∷ ls) =
        subst (All IsListType) asked (merge_params-IsListType env a.now _) in
      (
        ap requested at
            ∙ ap₂ (λ p t. (p, t)) try.listed
                (try.listed_type ∙ ap (λ (i : Info). i.list_type) at_first),
        map details_of ls,
        try.sent.0,
        ap (λ (o : Outcome). o.sent) at
            ∙ try.sent.1
            ∙ ap (λ (i : Info). requeued i 0 ++ try.sent.0) at_first,
        sent_requests ls valid.1,
      )
