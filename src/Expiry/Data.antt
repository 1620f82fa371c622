-- ===== src/Expiry/Data.antt =====
-- Rules, entities and actions of extensions/lifecycle/tasks/LifecycleTask.js.
use backbeat.Base.{ℕ, Bool, String, Option}
use backbeat.Retention.{NcvExpiration}

-- When a rule begins to apply: after a number of days, or at a date.
pub record Timing : Type 0 where
  pub days : Option ℕ
  pub date : Option ℕ

pub record Expiration : Type 0 where
  pub timing : Timing
  pub expired_object_delete_marker : Option Bool

pub record Transition : Type 0 where
  pub timing : Timing
  pub storage_class : String

pub record NoncurrentVersionExpiration : Type 0 where
  pub noncurrent_days : Option ℕ
  pub newer : NcvExpiration

pub record NoncurrentVersionTransition : Type 0 where
  pub noncurrent_days : Option ℕ
  pub storage_class : String

-- The rules that apply to an entity, each the earliest of its kind.
pub record Rules : Type 0 where
  pub expiration : Option Expiration
  pub transition : Option Transition
  pub noncurrent_version_expiration : Option NoncurrentVersionExpiration
  pub noncurrent_version_transition : Option NoncurrentVersionTransition

-- An object, a version or a delete marker of a listing.
pub record Entity : Type 0 where
  pub key : String
  pub version_id : String
  pub is_latest : Bool
  pub last_modified : ℕ
  pub stale_date : Option ℕ
  pub etag : Option String
  pub size : Option ℕ
  pub storage_class : Option String

-- `target` of a bucket entry.
pub record Target : Type 0 where
  pub owner : String
  pub bucket : String
  pub account_id : String

-- The attributes of an action `deleteObject`.
pub record DeleteObject : Type 0 where
  pub target : Target
  pub key : String
  pub version : Option String
  pub last_modified : Option ℕ
  pub data_store_name : Option String
  pub transition_time : Option ℕ

-- The arguments of `_applyTransitionRule`.
pub record TransitionParams : Type 0 where
  pub target : Target
  pub object_key : String
  pub version_id : String
  pub etag : Option String
  pub last_modified : ℕ
  pub site : String
  pub transition_time : Option ℕ

-- `LifecycleDateTime` at one moment, with `Date.now()`.
pub record LifecycleDateTime : Type 0 where
  pub find_days_since : ℕ → ℕ
  pub current_date : ℕ
  pub now : ℕ
  pub get_transition_timestamp : Timing → ℕ → Option ℕ
