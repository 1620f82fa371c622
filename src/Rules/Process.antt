-- ===== src/Rules/Process.antt =====
-- processBucketEntry of extensions/lifecycle/tasks/LifecycleTask.js, as LifecycleTaskV2.js inherits it: which
-- listing an entry of the bucket topic makes, and which entries it sends.
use mathlib.Core.List.{append-nil}
use mathlib.Core.Option.{none-ne-some}
use backbeat.Base.{
  ℕ, ◌≡◌, ◌∙◌, refl, ap, sym, inl, inr, Bool, true, false, not, ◌&&◌, ◌||◌, String, none, some,
  List, [], ◌++◌, if◌then◌else◌, ◌==◌, nat_eq, string_eq, Bool-cases, Option-cases, arith, subst,
}
use backbeat.Rules.Rule.{Rule}
use backbeat.Rules.Days.{Options}
use backbeat.Rules.Params.{Env, Details, Params, Info, rules_to_params}
use backbeat.Rules.Task.{
  given, skip_entry, skipped, Outcome, Response, list_error, page, Page, requeued, send_next,
  get_object_list, get_object_versions,
}

-- One try of an entry: the time, the rules and options then, and the answers to the requests, of which
-- the first is for multipart uploads and the second for the versioning of the bucket.
pub record Attempt : Type 0 where
  pub now : ℕ
  pub rules : List Rule
  pub options : Options
  pub uploads_ok : Bool
  pub versioning_ok : Bool
  pub versioning_status : String
  pub nb_retries : ℕ
  pub response : Response

abbrev pub failed_before : Outcome
failed_before = record skipped { failed = true }

abbrev pub has_versions : Attempt → Bool
has_versions a = a.versioning_status == "Enabled" || a.versioning_status == "Suspended"

-- The status that `rulesToParams` gets.
abbrev pub status_given : Attempt → String
status_given a = if has_versions a then a.versioning_status else "Disabled"

module _ (env : Env) (precedes : String → String → Bool) (bucket : String) where
  abbrev pub info_at : Attempt → Details → Info
  info_at a details =
      rules_to_params env precedes (status_given a) a.now a.rules bucket details a.options

  unfoldable pub list_objects : Attempt → Details → Outcome
  unfolding get_object_list get_object_versions
  list_objects a details =
      if has_versions a
      then get_object_versions (info_at a details) a.nb_retries a.response
      else get_object_list (info_at a details) a.nb_retries a.response

  -- `for_uploads`: the entry has an `uploadIdMarker`. Uploads are asked for unless the entry has another
  -- marker; what `_getMPUs` does with them, and its entry for more of them, are left out.
  unfoldable pub process_bucket_entry : Attempt → Bool → Details → Outcome
  unfolding skip_entry list_objects
  process_bucket_entry a for_uploads details =
      if skip_entry details
      then skipped
      else if not (given details.version_id_marker || given details.marker) && not a.uploads_ok
      then failed_before
      else if for_uploads
      then skipped
      else if not a.versioning_ok
      then failed_before
      else list_objects a details

  pub record IsAnswered (a : Attempt) : Type 0 where
    pub uploads : a.uploads_ok ≡ true
    pub versioning : a.versioning_ok ≡ true

  pub processed :
      (a : Attempt) (details : Details)
      → IsAnswered a
      → skip_entry details ≡ false
      → process_bucket_entry a false details ≡ list_objects a details
  unfolding process_bucket_entry
  processed a details ok goes =
      elim (Bool-cases (given details.version_id_marker || given details.marker)) [
        | inl e ↦ rw (goes, e, ok.versioning) refl
        | inr e ↦ rw (goes, e, ok.uploads, ok.versioning) refl
      ]

-- What both listings do at the first try.
pub record IsFirstTry (info : Info) (p : Params) (r : Response) (o : Outcome) : Type 0 where
  pub listed : o.listed ≡ some p
  pub listed_type : o.listed_type ≡ info.list_type
  pub sent : (next : List Details) × (o.sent ≡ requeued info 0 ++ next)
  pub sent_page :
      (pg : Page) (failed : Bool)
      → r ≡ page pg failed
      → o.sent ≡ requeued info 0 ++ send_next info p 0 pg

page_of : {p q : Page} {b c : Bool} → page p b ≡ page q c → p ≡ q
page_of {p} e = ap (λ r. elim r [ page x _ ↦ x | list_error ↦ p ]) e

objects_first :
    (info : Info) (p : Params) (r : Response)
    → info.params ≡ some p
    → IsFirstTry info p r (get_object_list info 0 r)
unfolding get_object_list
objects_first info p list_error h =
    rw (h, get_object_list)
      (record {
        listed = refl;
        listed_type = refl;
        sent = ([], sym (append-nil (requeued info 0)));
        sent_page = λ pg failed e. absurd (grind (arith, e));
      })
objects_first info p (page q failed) h =
    rw (h, get_object_list)
      (record {
        listed = refl;
        listed_type = refl;
        sent = (send_next info p 0 q, refl);
        sent_page = λ pg failed' e. ap (λ x. requeued info 0 ++ send_next info p 0 x) (page_of e);
      })

versions_first :
    (info : Info) (p : Params) (r : Response)
    → info.params ≡ some p
    → IsFirstTry info p r (get_object_versions info 0 r)
unfolding get_object_versions
versions_first info p list_error h =
    rw (h, get_object_versions)
      (record {
        listed = refl;
        listed_type = refl;
        sent = ([], sym (append-nil (requeued info 0)));
        sent_page = λ pg failed e. absurd (grind (arith, e));
      })
versions_first info p (page q failed) h =
    rw (h, get_object_versions)
      (record {
        listed = refl;
        listed_type = refl;
        sent = (send_next info p 0 q, refl);
        sent_page = λ pg failed' e. ap (λ x. requeued info 0 ++ send_next info p 0 x) (page_of e);
      })

either : Info → ℕ → Response → Bool → Outcome
either info n r versioned =
    if versioned then get_object_versions info n r else get_object_list info n r

either_first :
    (info : Info) (p : Params) (n : ℕ) (r : Response) (versioned : Bool)
    → n ≡ 0
    → info.params ≡ some p
    → IsFirstTry info p r (either info n r versioned)
unfolding either
either_first info p n r true zeroth h =
    subst (λ k. IsFirstTry info p r (get_object_versions info k r)) (sym zeroth)
      (versions_first info p r h)
either_first info p n r false zeroth h =
    subst (λ k. IsFirstTry info p r (get_object_list info k r)) (sym zeroth)
      (objects_first info p r h)

either_asks :
    (info : Info) (p : Params) (n : ℕ) (r : Response) (versioned : Bool)
    → info.params ≡ some p
    → ((either info n r versioned).listed ≡ some p)
      × ((either info n r versioned).listed_type ≡ info.list_type)
unfolding either get_object_versions get_object_list
either_asks info p n list_error true h = rw (h, get_object_versions) (refl, refl)
either_asks info p n (page q b) true h = rw (h, get_object_versions) (refl, refl)
either_asks info p n list_error false h = rw (h, get_object_list) (refl, refl)
either_asks info p n (page q b) false h = rw (h, get_object_list) (refl, refl)

either-none :
    (info : Info) (n : ℕ) (r : Response) (versioned : Bool)
    → info.params ≡ none
    → either info n r versioned ≡ skipped
unfolding either get_object_versions get_object_list
either-none info n r true h = rw (h, get_object_versions) refl
either-none info n r false h = rw (h, get_object_list) refl

module _ (env : Env) (precedes : String → String → Bool) (bucket : String) (a : Attempt)
    (details : Details) where
  abbrev info : Info
  info = info_at env precedes bucket a details

  pub first_try :
      (p : Params)
      → a.nb_retries ≡ 0
      → info.params ≡ some p
      → IsFirstTry info p a.response (list_objects env precedes bucket a details)
  unfolding list_objects either
  first_try p zeroth h = either_first info p a.nb_retries a.response (has_versions a) zeroth h

  -- The request and the type of its listing, at any try.
  pub asks :
      (p : Params)
      → info.params ≡ some p
      → ((list_objects env precedes bucket a details).listed ≡ some p)
        × ((list_objects env precedes bucket a details).listed_type ≡ info.list_type)
  unfolding list_objects either
  asks p h = either_asks info p a.nb_retries a.response (has_versions a) h

  -- Where a request is made, it is the one that `rulesToParams` found.
  pub found_params :
      (p : Params)
      → (list_objects env precedes bucket a details).listed ≡ some p
      → info.params ≡ some p
  unfolding list_objects either
  found_params p h = elim (Option-cases info.params) [
    | inl e ↦ absurd (
        none-ne-some _ (
          sym (
            ap (λ (o : Outcome). o.listed)
              (either-none info a.nb_retries a.response (has_versions a) e))
          ∙ h))
    | inr (q, e) ↦ e ∙ sym (asks q e).0 ∙ h
  ]
