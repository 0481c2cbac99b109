-- ===== src/Reset/Replay.antt =====
-- A command to reset that is sent again (app/service/attempt_reset_service.go): what its operation
-- holds when it is handled. A participant that is read from the database has no deployment
-- (app/adapter/persistence/mapper/node_mapper.go), so that a command gets no further than the
-- comparison of its target.
use bangkusekolah_exam_node.Base.{String}
use bangkusekolah_exam_node.Entity.{Attempt}
use bangkusekolah_exam_node.Store.{Store}
use bangkusekolah_exam_node.Exec.Hoare.{Hoare}
use bangkusekolah_exam_node.Reset.{AttemptResetCommand}
use bangkusekolah_exam_node.Reset.Operation.{Begun, answered, pending_for}
use bangkusekolah_exam_node.Reset.Handled.{IsOwn, Handled, Open}

module _ (c : AttemptResetCommand) (hash : String) where
  -- What the beginning of the operation leaves.
  abbrev Begins : Begun → Store → Type 0
  Begins (answered outcome) d = Handled c hash outcome d
  Begins (pending_for o) d = Open c hash o d × IsOwn c hash o
