-- ===== src/Auth/TemplateStore/Refinement/Simulated.antt =====
-- The calls of the store refine the steps on the list.
use secure_eye.Prelude.{Bool, List}
use secure_eye.Auth.Template.{Template, Numpy}
use secure_eye.Auth.TemplateStore.{FileState}
use secure_eye.Auth.TemplateStore.Refinement.{Step, Command, Steps, Holds}

-- A step on the list that the file's change refines.
record IsRefined (np : Numpy) (c : Command) (ts : List Template) (q : Bool × FileState)
    : Type 0 where
  models : List Template
  taken_step : Step c q.0 ts models
  holds : Holds np q.1 models

-- The list that the calls lead to, which the file holds in the end.
pub record IsReplayed (np : Numpy) (cs : List Command) (ts : List Template)
    (q : List Bool × FileState) : Type 0 where
  pub models : List Template
  pub steps : Steps cs q.0 ts models
  pub holds : Holds np q.1 models
