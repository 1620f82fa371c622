-- ===== src/Rules/Task.antt =====
-- The listing steps of extensions/lifecycle/tasks/LifecycleTaskV2.js: which request an entry of the
-- bucket topic makes, and which entries it sends back to the topic.
use backbeat.Base.{
  ℕ, Bool, true, false, not, ◌&&◌, ◌||◌, String, Option, none, some, List, [], ◌∷◌, ◌++◌, map,
  if◌then◌else◌, ◌==◌, nat_eq, string_eq, contains,
}
use backbeat.Rules.Params.{ListParams, Details, Params, Info}

abbrev pub no_details : Details
no_details = record {
  list_type = none;
  prefix = none;
  before_date = none;
  storage_class = none;
  marker = none;
  key_marker = none;
  version_id_marker = none;
}

-- A text that is given and not empty.
abbrev pub given : Option String → Bool
given none = false
given (some s) = not (s == "")

-- `_skipEntry`
unfoldable pub skip_entry : Details → Bool
skip_entry details =
    (given details.version_id_marker || given details.marker) && not (given details.list_type)

-- The markers of the next page, as the metadata proxy returns them.
pub record MarkerInfo : Type 0 where
  pub marker : Option String
  pub key_marker : Option String
  pub version_id_marker : Option String

-- A page of a listing, with the keys of its objects.
pub record Page : Type 0 where
  pub contents : List String
  pub is_truncated : Bool
  pub marker_info : MarkerInfo

-- The answer to the request; and whether comparing the rules to the page failed.
pub data Response : Type 0 where
  list_error : Response
  page : Page → Bool → Response

pub data Clear : Type 0 where
  nothing whole_bucket : Clear
  objects : List String → Clear

-- The request made with the type of the listing, the details of the entries sent, what is cleared of the heap of versions, and
-- whether `done` is called with an error.
pub record Outcome : Type 0 where
  pub listed : Option Params
  pub listed_type : Option String
  pub sent : List Details
  pub cleared : Clear
  pub failed : Bool

-- The entry that `_handleRemainingListings` sends for one listing.
unfoldable pub details_of : ListParams → Details
details_of l = record no_details {
  list_type = some l.list_type;
  prefix = some l.prefix;
  before_date = l.before_date;
  storage_class = l.storage_class;
}

-- `_handleRemainingListings`
unfoldable pub handle_remaining_listings : List ListParams → List Details
unfolding details_of
handle_remaining_listings remainings = map details_of remainings

-- The entry that asks for the next page.
unfoldable pub continuation : Option String → Params → MarkerInfo → Details
continuation list_type params m = record {
  list_type = list_type;
  prefix = params.prefix;
  before_date = params.before_date;
  storage_class = params.excluded_data_store_name;
  marker = m.marker;
  key_marker = m.key_marker;
  version_id_marker = m.version_id_marker;
}

unfoldable pub send_next : Info → Params → ℕ → Page → List Details
unfolding continuation
send_next info params nb_retries p =
    if p.is_truncated && nb_retries == 0
    then continuation info.list_type params p.marker_info ∷ []
    else []

abbrev pub requeued : Info → ℕ → List Details
requeued info nb_retries = if nb_retries == 0 then handle_remaining_listings info.remainings else []

abbrev pub skipped : Outcome
skipped = record { listed = none; listed_type = none; sent = []; cleared = nothing; failed = false }

-- `_getObjectList`, from the parameters that `rulesToParams` returned.
unfoldable pub get_object_list : Info → ℕ → Response → Outcome
unfolding handle_remaining_listings send_next
get_object_list info nb_retries response = elim info.params [
  | none ↦ skipped
  | some params ↦ elim response [
    | list_error ↦ record {
      listed = some params;
      listed_type = info.list_type;
      sent = requeued info nb_retries;
      cleared = nothing;
      failed = true;
    }
    | page p compare_failed ↦ record {
      listed = some params;
      listed_type = info.list_type;
      sent = requeued info nb_retries ++ send_next info params nb_retries p;
      cleared = nothing;
      failed = compare_failed;
    }
  ]
]

-- A set of texts, in the order in which they were added.
add_key : List String → String → List String
add_key keys k = if contains keys k then keys else keys ++ k ∷ []

add_keys : List String → String → List String → List String
unfolding add_key
add_keys keys marker [] = keys
add_keys keys marker (k ∷ ks) = add_keys (if k == marker then keys else add_key keys k) marker ks

-- The keys of the page that are not continued on the next one.
unfoldable pub keys_not_next_marker : Page → List String
unfolding add_keys
keys_not_next_marker p = elim p.marker_info.key_marker [
  | none ↦ []
  | some m ↦ if m == "" then [] else add_keys [] m p.contents
]

unfoldable pub cleared_by : Page → Bool → Clear
unfolding keys_not_next_marker
cleared_by p compare_failed =
    if compare_failed
    then nothing
    else if p.is_truncated
    then objects (keys_not_next_marker p)
    else whole_bucket

-- `_getObjectVersions`, which also clears the heap of versions.
unfoldable pub get_object_versions : Info → ℕ → Response → Outcome
unfolding handle_remaining_listings send_next cleared_by
get_object_versions info nb_retries response = elim info.params [
  | none ↦ skipped
  | some params ↦ elim response [
    | list_error ↦ record {
      listed = some params;
      listed_type = info.list_type;
      sent = requeued info nb_retries;
      cleared = nothing;
      failed = true;
    }
    | page p compare_failed ↦ record {
      listed = some params;
      listed_type = info.list_type;
      sent = requeued info nb_retries ++ send_next info params nb_retries p;
      cleared = cleared_by p compare_failed;
      failed = compare_failed;
    }
  ]
]
