-- ===== src/Node/Work/Answered.antt =====
-- What the head node hears of an execution on a worker.
use b7s.Common.{false, ◌≡◌}
use b7s.Common.Text.{Text, text_eq}
use b7s.Models.{PeerId, ExecuteRequest}
use b7s.Models.Code
use b7s.Node.Head.{ExecuteMessage}
use b7s.Node.Work.{WorkEnv, Worked, worker_execute}

module _ {R : Type 0} (env : WorkEnv R) (from : PeerId) (msg : ExecuteMessage) where
  abbrev work : Worked
  work = worker_execute env msg.request_id msg.timestamp msg.request from

  -- The executor gives each failed execution the code for an error.
  abbrev pub FailsWithError : Type 0
  FailsWithError =
      (id : Text) (req : ExecuteRequest)
      → (env.execute_function id req).0 ≡ false
      → (env.execute_function id req).1.code ≡ Code.error
