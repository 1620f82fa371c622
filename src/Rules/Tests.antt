-- ===== src/Rules/Tests.antt =====
-- A bucket with rules, and the theorems at it.
use backbeat.Base.{
  inr, arith, ◌≡◌, refl, inl, Bool, true, false, String, none, some, List, [], ◌∷◌, ◌++◌, map,
  AnyOf, string_eq,
}
use backbeat.Rules.Rule.{Rule, num, get_rule_prefix}
use backbeat.Rules.Reducer.{Listing, new_reducer, to_listings}
use backbeat.Rules.Days.{Options, Reducer}
use backbeat.Rules.Due.{ActsAfter, own}
use backbeat.Rules.Coverage.{this, Reaches, currents_served}
use backbeat.Rules.LeftOut.{moved_versions_left_out}
use backbeat.Rules.Params.{rules_to_params, Env, ListParams, Details, merge_params, since}
use backbeat.Rules.Task.{Response, no_details, MarkerInfo, Page, list_error, page}
use backbeat.Rules.Process.{Attempt, IsAnswered, process_bucket_entry}
use backbeat.Rules.Requeue.{requested, wanted_at, wanted, first_request, requests_complete}
use backbeat.Rules.Resume.{next_request, next_page_resumes}

-- The order of texts, here always true: the rules stay as they are.
abbrev any_order : String → String → Bool
any_order a b = true

abbrev plain : Rule
plain = record {
  status = "Enabled";
  prefix = some "logs/";
  filter = none;
  expiration = none;
  transitions = none;
  noncurrent_expiration = none;
  noncurrent_transitions = none;
}

abbrev expires : Rule
expires = record plain {
  expiration = some (record { days = some 10; date = none; expired_object_delete_marker = false });
  noncurrent_expiration = some (some 3);
}

abbrev moves : Rule
moves = record plain {
  prefix = some "logs/old";
  transitions = some (
      record { days = some 7; date = none; storage_class = some "cold" }
      ∷ record { days = some 5; date = none; storage_class = some "warm" }
      ∷ []);
}

abbrev dated : Rule
dated = record plain {
  transitions = some (record { days = none; date = some 90; storage_class = some "cold" } ∷ []);
}

abbrev options : Options
options = record { expire_one_day_earlier = true; transition_one_day_earlier = false }

abbrev rules : List Rule
rules = expires ∷ moves ∷ []

abbrev reducer : Reducer
reducer = this any_order "Enabled" 100 rules options

-- The second rule is served by the listing of the first, from the fifth day on.
currents_of_rules :
    (to_listings reducer).currents
    ≡ record { prefix = "logs/"; days = num 5; storage_class = none } ∷ []
unfolding to_listings new_reducer get_rule_prefix
currents_of_rules = refl

moves_after : ActsAfter options 100 moves 5
moves_after =
    ActsAfter.moves (record { days = some 5; date = none; storage_class = some "warm" }) 5
      (_, refl, inr (inl refl)) refl

currents_served_example : AnyOf (Reaches moves "logs/old" 5) (to_listings reducer).currents
currents_served_example =
    currents_served any_order "Enabled" 100 rules options moves "logs/old" 5 (inr (inl refl)) refl
      (own "logs/old" refl (λ e. cc)) (inl ((7, refl), ((5, refl), tt))) moves_after

-- A rule that expires old versions and moves them to another class.
abbrev archives : Rule
archives = record plain {
  noncurrent_expiration = some (some 10);
  noncurrent_transitions =
      some (record { noncurrent_days = some 1; storage_class = some "cold" } ∷ []);
}

moved_versions_left_out_example :
    (x : Listing) × ((to_listings
        (this any_order "Enabled" 100 (archives ∷ []) options)).non_currents
      ≡ x ∷ [])
    × (x.storage_class ≡ some "cold")
moved_versions_left_out_example =
    moved_versions_left_out any_order "Enabled" 100 options archives
      (record { noncurrent_days = some 1; storage_class = some "cold" }) 10 "cold" refl refl refl
      (omega arith) refl refl (λ e. cc)

abbrev env : Env
env = record { max_keys = 1000; ms_per_day = 10 }

abbrev first_listing : ListParams
first_listing = record {
  prefix = "logs/";
  list_type = "current";
  before_date = some (since 50);
  storage_class = none;
}

wanted_of_rules : wanted env any_order "Disabled" 100 rules "b" options ≡ first_listing ∷ []
unfolding to_listings new_reducer get_rule_prefix merge_params
wanted_of_rules = refl

-- A first try in a bucket with or without versions.
abbrev attempt : String → Response → Attempt
attempt status response = record {
  now = 100;
  rules = rules;
  options = options;
  uploads_ok = true;
  versioning_ok = true;
  versioning_status = status;
  nb_retries = 0;
  response = response;
}

answered :
    (status : String) (response : Response) → IsAnswered env any_order "b" (attempt status response)
answered status response = record { uploads = refl; versioning = refl }

-- With versions, the first rule also asks for old versions and for delete markers that hide nothing.
abbrev old_listings : List ListParams
old_listings =
    record {
      prefix = "logs/";
      list_type = "noncurrent";
      before_date = some (since 80);
      storage_class = none;
    }
    ∷ record {
      prefix = "logs/";
      list_type = "orphan";
      before_date = some (since 10);
      storage_class = none;
    }
    ∷ []

wanted_versioned :
    wanted_at env any_order "b" (attempt "Enabled" list_error) ≡ first_listing ∷ old_listings
unfolding to_listings new_reducer get_rule_prefix merge_params
wanted_versioned = refl

requests_complete_example :
    (let run =
        process_bucket_entry env any_order "b" (attempt "Enabled" list_error) false no_details in
      (requested run ≡ (some (first_request env "b" first_listing), some "current"))
      × (entries : List Details) × (next : List Details) × (run.sent ≡ entries ++ next)
      × ((later : Attempt)
          → IsAnswered env any_order "b" later
          → map (λ d. requested (process_bucket_entry env any_order "b" later false d)) entries
            ≡ map (λ k. (some (first_request env "b" k), some k.list_type)) old_listings))
requests_complete_example =
    requests_complete env any_order "b" (attempt "Enabled" list_error) no_details first_listing
      old_listings refl refl refl (answered "Enabled" list_error) refl wanted_versioned

abbrev markers : MarkerInfo
markers = record { marker = some "logs/m"; key_marker = none; version_id_marker = none }

abbrev cut_page : Page
cut_page = record { contents = "logs/a" ∷ []; is_truncated = true; marker_info = markers }

abbrev cut_short : Attempt
cut_short = attempt "Enabled" (page cut_page false)

leads_to :
    (process_bucket_entry env any_order "b" cut_short false no_details).listed
    ≡ some (first_request env "b" first_listing)
unfolding process_bucket_entry to_listings new_reducer get_rule_prefix merge_params rules_to_params
leads_to = refl

next_page_resumes_example :
    (let run = process_bucket_entry env any_order "b" cut_short false no_details in
      (t : String) × (front : List Details) × (last : Details) × (run.listed_type ≡ some t)
      × (run.sent ≡ front ++ last ∷ [])
      × ((later : Attempt)
          → IsAnswered env any_order "b" later
          → requested (process_bucket_entry env any_order "b" later false last)
            ≡ (some (next_request t (first_request env "b" first_listing) markers), some t)))
next_page_resumes_example =
    next_page_resumes env any_order "b" cut_short no_details (first_request env "b" first_listing)
      cut_page false leads_to refl refl refl
