-- ===== src/Provider/Rows.antt =====
-- providers/local/barista_local_provider/store.py: the tables of the database, a record for the
-- rows of each. Times are numbers; JSON documents that the store only keeps are texts; a cursor is
-- the number that its text spells.
use barista_apps.Prelude.{ℕ, String, Bool, Option, List, text_equality}
use barista_apps.Prelude.Dict.{Dict}

-- What the handlers read of a manifest.
pub record Workload : Type 0 where
  pub image : String
  pub digest : String
  pub architecture : String
  pub entrypoint : List String
  pub working_dir : Option String

pub record AppManifest : Type 0 where
  pub name : String
  pub version : String
  pub workload : Workload
  pub required : List String
  pub optional : List String

pub record AppRow : Type 0 where
  pub name : String
  pub version : String
  pub digest : String
  pub manifest : AppManifest
  pub granted_capabilities : List String
  pub installed_at : ℕ

pub record SessionRow : Type 0 where
  pub id : String
  pub name : Option String
  pub app : String
  pub node_instance_id : String
  pub state : String
  pub created_at : ℕ
  pub parent_session_id : Option String
  pub metadata : String

pub record KeyRow : Type 0 where
  pub key : String
  pub kind : String
  pub resource_id : String
  pub created_at : ℕ

pub record OperationRow : Type 0 where
  pub id : String
  pub kind : String
  pub done : Bool
  pub session_id : Option String
  pub exit_code : Option ℕ
  pub last_event_cursor : Option ℕ

pub data EventData : Type 0 where
  state_changed : String → EventData
  stdout stderr : List ℕ → EventData
  exit : ℕ → EventData
  artifact_registered : String → EventData

pub record EventRow : Type 0 where
  pub seq : ℕ
  pub session_id : String
  pub operation_id : Option String
  pub time : ℕ
  pub body : EventData

-- node/client.py, `InstanceRequest`.
pub record InstanceRequest : Type 0 where
  pub instance_id : String
  pub image : String
  pub digest : String
  pub arch : String
  pub start_cmd : List String
  pub env : Dict String
  pub workdir : Option String

pub record PendingRow : Type 0 where
  pub session_id : String
  pub request : InstanceRequest

pub record ArtifactRow : Type 0 where
  pub id : String
  pub session_id : String
  pub name : String
  pub digest : String
  pub size_bytes : ℕ
  pub media_type : String
  pub created_at : ℕ
  pub metadata : String
