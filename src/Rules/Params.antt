-- ===== src/Rules/Params.antt =====
-- extensions/lifecycle/util/rules.js: the parameters of the next listing of a bucket, from a resumed
-- listing's details or else from the bucket's rules.
use backbeat.Base.{
  ℕ, ◌-◌, ◌*◌, Bool, ◌||◌, String, Option, none, some, List, [], ◌∷◌, ◌++◌, map, ltb, leb,
  if◌then◌else◌, ◌==◌, string_eq, contains,
}
use backbeat.Rules.Rule.{Rule, Days, num, nan}
use backbeat.Rules.Reducer.{Listing, Listings, given_class, new_reducer, to_listings}
use backbeat.Rules.Days.{Options}

abbrev pub current_type : String
current_type = "current"

abbrev pub non_current_type : String
non_current_type = "noncurrent"

abbrev pub orphan_dm_type : String
orphan_dm_type = "orphan"

abbrev pub list_types : List String
list_types = current_type ∷ non_current_type ∷ orphan_dm_type ∷ []

-- A date in milliseconds from 1970 on, or by how much it lies before.
pub data Instant : Type 0 where
  since : ℕ → Instant
  before : ℕ → Instant

-- A listing that is ready to be made; dates stand for their ISO texts.
pub record ListParams : Type 0 where
  pub prefix : String
  pub list_type : String
  pub before_date : Option Instant
  pub storage_class : Option String

-- `bucketData.details`
pub record Details : Type 0 where
  pub list_type : Option String
  pub prefix : Option String
  pub before_date : Option Instant
  pub storage_class : Option String
  pub marker : Option String
  pub key_marker : Option String
  pub version_id_marker : Option String

-- The parameters of the request to list.
pub record Params : Type 0 where
  pub bucket : String
  pub prefix : Option String
  pub max_keys : ℕ
  pub marker : Option String
  pub key_marker : Option String
  pub version_id_marker : Option String
  pub before_date : Option Instant
  pub excluded_data_store_name : Option String

pub record Info : Type 0 where
  pub params : Option Params
  pub list_type : Option String
  pub remainings : List ListParams

-- `MAX_KEYS` depends on the environment, and `scaleMsPerDay` is a function of the arsenal library.
pub record Env : Type 0 where
  pub max_keys : ℕ
  pub ms_per_day : ℕ

module _ (env : Env) where
  -- `_getBeforeDate`
  unfoldable pub get_before_date : ℕ → ℕ → Instant
  get_before_date current_date days =
      let ms = days * env.ms_per_day in
      if leb ms current_date then since (current_date - ms) else before (ms - current_date)

  unfoldable pub days_before_date : ℕ → Days → Option Instant
  unfolding get_before_date
  days_before_date current_date nan = none
  days_before_date current_date (num days) =
      if ltb 0 days then some (get_before_date current_date days) else none

  -- `_makeListParams`
  unfoldable pub make_list_params : String → ℕ → Listing → ListParams
  unfolding days_before_date
  make_list_params list_type current_date listing = record {
    prefix = listing.prefix;
    list_type = list_type;
    before_date = days_before_date current_date listing.days;
    storage_class = given_class listing.storage_class;
  }

  -- `_mergeParams`
  unfoldable pub merge_params : ℕ → Listings → List ListParams
  unfolding make_list_params
  merge_params current_date listings =
      map (make_list_params current_type current_date) listings.currents
      ++ (map (make_list_params non_current_type current_date) listings.non_currents
          ++ map (make_list_params orphan_dm_type current_date) listings.orphans)

  -- `_getParamsFromListings`
  unfoldable pub get_params_from_listings : String → ℕ → Listings → Info
  unfolding merge_params
  get_params_from_listings bucket_name current_date listings =
      elim (merge_params current_date listings) [
        | [] ↦ record { params = none; list_type = none; remainings = [] }
        | first ∷ rest ↦ record {
          params = some (record {
            bucket = bucket_name;
            prefix = some first.prefix;
            max_keys = env.max_keys;
            marker = none;
            key_marker = none;
            version_id_marker = none;
            before_date = first.before_date;
            excluded_data_store_name = given_class first.storage_class;
          });
          list_type = some first.list_type;
          remainings = rest;
        }
      ]

  -- `_getParamsFromDetails`; an invalid type gives no listing, and its remainings are not read.
  unfoldable pub get_params_from_details : String → String → Details → Info
  get_params_from_details bucket_name list_type details =
      if contains list_types list_type
      then record {
        params = some (record {
          bucket = bucket_name;
          prefix = details.prefix;
          max_keys = env.max_keys;
          marker =
              if list_type == current_type || list_type == orphan_dm_type
              then details.marker
              else none;
          key_marker = if list_type == non_current_type then details.key_marker else none;
          version_id_marker =
              if list_type == non_current_type then details.version_id_marker else none;
          before_date = details.before_date;
          excluded_data_store_name = given_class details.storage_class;
        });
        list_type = some list_type;
        remainings = [];
      }
      else record { params = none; list_type = none; remainings = [] }

  -- `rulesToParams`
  unfoldable pub rules_to_params :
      (String → String → Bool) → String → ℕ → List Rule → String → Details → Options → Info
  unfolding get_params_from_listings get_params_from_details to_listings new_reducer
  rules_to_params precedes versioning_status current_date rules bucket_name details options =
      let from_rules =
        get_params_from_listings bucket_name current_date
          (to_listings (new_reducer precedes versioning_status current_date rules options)) in
      elim details.list_type [
        | none ↦ from_rules
        | some list_type ↦
            if list_type == ""
            then from_rules
            else get_params_from_details bucket_name list_type details
      ]
