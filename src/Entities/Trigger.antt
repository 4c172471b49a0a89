-- ===== src/Entities/Trigger.antt =====
-- domain/model/entities/trigger.go and triggerHistory.go. `Data` and `ID` of a
-- trigger, which nothing reads and the database does not hold, are left out.
use finance_service.Base.{ℕ, Bool, Option, String, List}
use finance_service.Base.Int.{ℤ}
use finance_service.Entities.Profile.{Time}
use finance_service.Entities.Order.{ObjectId}

pub data TriggerRunMode : Type 0 where
  none_mode running complete incomplete : TriggerRunMode

pub data TriggerExecResult : Type 0 where
  none_result success fail partial : TriggerExecResult

pub record TriggerHistory : Type 0 where
  pub id : ObjectId
  pub trigger_name : String
  pub version : ℕ
  pub doc_version : String
  pub exec_result : TriggerExecResult
  pub run_mode : TriggerRunMode
  pub triggered_at : Option Time
  pub is_missed_fire : Bool
  pub action : Option ObjectId
  pub action_history : List ObjectId
  pub retry_index : ℕ
  pub finances : List String
  pub created_at : Time
  pub updated_at : Time
  pub deleted_at : Option Time

-- utils.TimeUnit
pub data TimeUnit : Type 0 where
  minute_unit hour_unit : TimeUnit

pub data TriggerType : Type 0 where
  seller_trigger buyer_trigger : TriggerType

pub data TriggerJobExecType : Type 0 where
  async_job sync_job : TriggerJobExecType

pub data TriggerExecMode : Type 0 where
  concurrent_trigger sequential_trigger : TriggerExecMode

pub data TriggerPointType : Type 0 where
  absolute relative : TriggerPointType

pub record FinanceTrigger : Type 0 where
  pub version : ℕ
  pub doc_version : String
  pub name : String
  pub group : String
  pub cron : String
  pub duration : ℤ
  pub interval : ℤ
  pub time_unit : TimeUnit
  pub trigger_point : String
  pub trigger_point_type : TriggerPointType
  pub latest_trigger_at : Option Time
  pub trigger_at : Option Time
  pub type : TriggerType
  pub is_active : Bool
  pub is_enable : Bool
  pub test_mode : Bool
  pub exec_mode : TriggerExecMode
  pub job_exec_type : TriggerJobExecType
  pub created_at : Time
  pub updated_at : Time
  pub deleted_at : Option Time
