-- ===== src/Model/Events.antt =====
-- threadlens/models/events.py
use threadlens.Prelude.{ℕ, Bool, String, List, Option}

pub data EventSourceType : Type 0 where
  otbr matter_server mdns threadlens_core agent : EventSourceType

pub data EventSeverity : Type 0 where
  info warning error critical : EventSeverity

pub data EventSubjectType : Type 0 where
  thread_network otbr matter_server matter_node trel_service mdns_service : EventSubjectType

-- The values that the code puts into the `data` dictionary of an event, and reads from it.
pub data Datum : Type 0 where
  null : Datum
  flag : Bool → Datum
  number : ℕ → Datum
  text : String → Datum
  opt_text : Option String → Datum
  opt_number : Option ℕ → Datum

pub record Event : Type 0 where
  pub timestamp : ℕ
  pub source_type : EventSourceType
  pub source_id : String
  pub event_type : String
  pub severity : EventSeverity
  pub subject_type : EventSubjectType
  pub subject_id : String
  pub message : String
  pub details : List (String × Datum)

-- `.value`
abbrev pub source_value : EventSourceType → String
source_value EventSourceType.otbr = "otbr"
source_value EventSourceType.matter_server = "matter_server"
source_value EventSourceType.mdns = "mdns"
source_value EventSourceType.threadlens_core = "threadlens"
source_value EventSourceType.agent = "agent"

abbrev pub severity_value : EventSeverity → String
severity_value EventSeverity.info = "info"
severity_value EventSeverity.warning = "warning"
severity_value EventSeverity.error = "error"
severity_value EventSeverity.critical = "critical"

abbrev pub subject_value : EventSubjectType → String
subject_value EventSubjectType.thread_network = "thread_network"
subject_value EventSubjectType.otbr = "otbr"
subject_value EventSubjectType.matter_server = "matter_server"
subject_value EventSubjectType.matter_node = "matter_node"
subject_value EventSubjectType.trel_service = "trel_service"
subject_value EventSubjectType.mdns_service = "mdns_service"
