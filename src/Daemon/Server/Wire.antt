-- ===== src/Daemon/Server/Wire.antt =====
-- The messages of crates/rat-proto/src/lib.rs: requests, responses and the parameters of the methods,
-- with the defaults that the handlers use. The derived decoding and encoding of serde are a `Codec`,
-- where a decoding fails with a text. The field `type` of a filter is `kind`.
use rato.Prelude.{ℕ, String, Bool, Option, none, List}
use rato.Prelude.Paths.{Text}

-- `errcodes`: -32600, -32601, -32000, -32001, -32002
pub data ErrCode : Type 0 where
  invalid_request method_not_found internal hello_required proto_mismatch : ErrCode

pub record Request (V : Type 0) : Type 0 where
  pub id : ℕ
  pub method : String
  pub params : V

pub record RpcError : Type 0 where
  pub code : ErrCode
  pub message : Text

pub record Response (V : Type 0) : Type 0 where
  pub id : ℕ
  pub result : Option V
  pub error : Option RpcError

abbrev pub proto_version : ℕ
proto_version = 1

pub record HelloParams : Type 0 where
  pub version : ℕ

pub record RecentParams : Type 0 where
  pub limit : ℕ

abbrev pub default_recent : RecentParams
default_recent = record { limit = 50 }

pub record ObsRecentParams : Type 0 where
  pub limit : ℕ
  pub kind : Option String

abbrev pub default_obs_recent : ObsRecentParams
default_obs_recent = record { limit = 50; kind = none }

pub record MemorySearchParams : Type 0 where
  pub query : String
  pub project_id : Option String
  pub n : Option ℕ

pub record MemoryListParams : Type 0 where
  pub kind : Option String
  pub project_id : Option String
  pub include_archived : Bool
  pub limit : Option ℕ

-- `PushbacksRecentParams` and `WorkbenchRunsParams`
pub record CountParams : Type 0 where
  pub n : Option ℕ

pub record PushbackFeedbackParams : Type 0 where
  pub id : String
  pub verdict : String

pub record WorkbenchStartParams : Type 0 where
  pub project_id : String
  pub title : String
  pub adapter : String
  pub executor : String
  pub docker_image : Option Text

pub record WorkbenchTailParams : Type 0 where
  pub run_id : String
  pub lines : Option ℕ

pub record PinRecentParams : Type 0 where
  pub media : String
  pub minutes : ℕ

abbrev pub default_pin_recent : PinRecentParams
default_pin_recent = record { media = "screen"; minutes = 5 }

pub record SetRoleParams : Type 0 where
  pub id : String
  pub role : String

pub record DotfileApplyParams (V : Type 0) : Type 0 where
  pub path : Text
  pub kind : String
  -- the bytes of the text
  pub contents : List ℕ
  pub reason : Text
  pub source : String
  pub risk : ℕ
  pub meta : V

-- `WorkbenchMergeBackParams`, `PinsUnpinParams`, `DotfileEditsRevertParams`
pub record IdParams : Type 0 where
  pub id : String
