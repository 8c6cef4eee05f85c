-- ===== src/Schema/Tables.antt =====
-- `Kernel._create_schema`: one record for each table, and the lookups by key.
use mechagnome.Base.{ℕ, String, Bool, ◌&&◌, Option, none, List, [], ◌==◌, nat_eq, string_eq}
use mechagnome.Base.Rows.{find, where_rows, is_some}

pub record Toolbox : Type 0 where
  pub id : String
  pub name : String

pub record CwdDefault : Type 0 where
  pub cwd : String
  pub toolbox_id : String

pub record Lineage : Type 0 where
  pub id : ℕ
  pub toolbox_id : String
  pub name : String

pub record Namespace : Type 0 where
  pub lineage_id : ℕ
  pub path : String

pub record Version : Type 0 where
  pub id : ℕ
  pub lineage_id : ℕ
  pub version : ℕ
  pub description : String
  pub schema_json : String
  pub source : String

pub record Binding : Type 0 where
  pub toolbox_id : String
  pub name : String
  pub tool_version_id : ℕ

pub record Session : Type 0 where
  pub id : String
  pub cwd : Option String
  pub parent_session_id : Option String
  pub kind : String
  pub origin_session_id : Option String
  pub origin_call_id : Option String
  pub context_source_session_id : Option String
  pub context_through_seq : Option ℕ
  pub title : Option String
  pub description : Option String
  pub annotation_revision : ℕ

pub record SessionToolbox : Type 0 where
  pub session_id : String
  pub position : ℕ
  pub toolbox_id : String

-- What the kernel itself writes into `payload_json`, and any other text of a JSON value.
pub data Payload : Type 0 where
  json : String → Payload
  selection_changed : (mode : String) (before after : List String) → Payload
  binding_changed :
      (name : String) (from_version : Option ℕ) (to_version : ℕ) (toolbox : String) → Payload
  namespaces_changed : (name : String) (before after : List String) (toolbox : String) → Payload
  version_deleted :
      (name : String) (deleted : ℕ) (toolbox : String) (rolled_back_to : Option ℕ) → Payload
  binding_deleted : (name : String) (from_version : ℕ) (toolbox : String) → Payload
  annotation_changed :
      (field : String) (old_value new_value : Option String) (revision : ℕ) (actor : String)
      (actor_call : Option String)
      → Payload

pub record Event : Type 0 where
  pub session_id : String
  pub seq : ℕ
  pub kind : String
  pub call_id : Option String
  pub parent_call_id : Option String
  pub toolbox_id : Option String
  pub tool_name : Option String
  pub tool_version : Option ℕ
  pub tool_version_id : Option ℕ
  pub payload : Payload

pub record Db : Type 0 where
  -- the row `legacy_fallback` of `metadata`
  pub legacy_fallback : Option String
  pub toolboxes : List Toolbox
  pub cwd_defaults : List CwdDefault
  pub lineages : List Lineage
  pub namespaces : List Namespace
  pub versions : List Version
  pub bindings : List Binding
  pub sessions : List Session
  pub session_toolboxes : List SessionToolbox
  pub events : List Event

-- A database right after `_create_schema`.
abbrev pub blank : Db
blank = record {
  legacy_fallback = none;
  toolboxes = [];
  cwd_defaults = [];
  lineages = [];
  namespaces = [];
  versions = [];
  bindings = [];
  sessions = [];
  session_toolboxes = [];
  events = [];
}

-- The keys by which the kernel looks rows up.
abbrev pub toolbox_with_id : String → Toolbox → Bool
toolbox_with_id i t = t.id == i

abbrev pub toolbox_with_name : String → Toolbox → Bool
toolbox_with_name n t = t.name == n

abbrev pub default_of_cwd : String → CwdDefault → Bool
default_of_cwd c d = d.cwd == c

abbrev pub default_to_toolbox : String → CwdDefault → Bool
default_to_toolbox i d = d.toolbox_id == i

abbrev pub lineage_with_id : ℕ → Lineage → Bool
lineage_with_id i l = l.id == i

abbrev pub lineage_named : String → String → Lineage → Bool
lineage_named toolbox name l = l.toolbox_id == toolbox && l.name == name

abbrev pub version_with_id : ℕ → Version → Bool
version_with_id i v = v.id == i

abbrev pub version_numbered : ℕ → ℕ → Version → Bool
version_numbered lineage n v = v.lineage_id == lineage && v.version == n

abbrev pub version_of : ℕ → Version → Bool
version_of lineage v = v.lineage_id == lineage

abbrev pub binding_named : String → String → Binding → Bool
binding_named toolbox name b = b.toolbox_id == toolbox && b.name == name

abbrev pub binding_to : ℕ → Binding → Bool
binding_to i b = b.tool_version_id == i

abbrev pub session_with_id : String → Session → Bool
session_with_id i s = s.id == i

abbrev pub selected_by : String → SessionToolbox → Bool
selected_by session s = s.session_id == session

abbrev pub event_of : String → Event → Bool
event_of session e = e.session_id == session

abbrev pub has_toolbox : Db → String → Bool
has_toolbox db i = is_some (find (toolbox_with_id i) db.toolboxes)

abbrev pub has_session : Db → String → Bool
has_session db i = is_some (find (session_with_id i) db.sessions)

abbrev pub has_version : Db → ℕ → Bool
has_version db i = is_some (find (version_with_id i) db.versions)

abbrev pub has_lineage : Db → ℕ → Bool
has_lineage db i = is_some (find (lineage_with_id i) db.lineages)

abbrev pub events_of : Db → String → List Event
events_of db session = where_rows (event_of session) db.events
