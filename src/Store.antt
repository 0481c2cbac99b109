-- ===== src/Store.antt =====
-- The node's database (app/migrations, app/adapter/persistence/model): one list of rows for each
-- table, in the order of its primary key. Device ids are nullable columns; NULL is the empty text,
-- as app/adapter/persistence/mapper/node_mapper.go maps it both ways.
use bangkusekolah_exam_node.Base.{ℕ, String, Option, List}
use bangkusekolah_exam_node.Entity.{
  Exam, Item, Participant, Attempt, Answer, IntegrityEvent, AttemptResetOperation,
  RosterEventReceipt, Time, Err,
}

-- model.Participant: the table has no deployment column.
pub record ParticipantRow : Type 0 where
  pub id : String
  pub exam_id : String
  pub student_id : String
  pub student_name : String
  pub access_code : String
  pub roster_revision : ℕ
  pub attempt_count : ℕ
  pub latest_attempt_id : Option String

-- mapper.ToParticipantEntity
abbrev pub to_participant_entity : ParticipantRow → Participant
to_participant_entity m = record {
  id = m.id;
  exam_id = m.exam_id;
  deployment_id = "";
  student_id = m.student_id;
  student_name = m.student_name;
  access_code = m.access_code;
  roster_revision = m.roster_revision;
  attempt_count = m.attempt_count;
  latest_attempt_id = m.latest_attempt_id;
}

-- model.HarvestLog, in the order of its ids. Nothing writes acked_at, and no entry is without a
-- message.
pub record HarvestLog : Type 0 where
  pub attempt_id : String
  pub deployment_id : String
  pub pushed_at : Time
  pub attempts_count : ℕ
  pub last_error : Err

pub record Store : Type 0 where
  pub exams : List Exam
  pub items : List Item
  pub participants : List ParticipantRow
  pub attempts : List Attempt
  pub answers : List Answer
  pub integrity_events : List IntegrityEvent
  pub reset_operations : List AttemptResetOperation
  pub roster_receipts : List RosterEventReceipt
  pub harvest_log : List HarvestLog
