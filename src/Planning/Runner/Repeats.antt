-- ===== src/Planning/Runner/Repeats.antt =====
-- Later passes of `Process` over a case that is decided (internal/planning/runner.go).
use nix.Base.{ℕ, ◌≡◌, String, List, [], ◌∷◌}
use nix.Planning.Runner.{Dependencies, World, Answer, process}
use nix.Planning.Runner.Settled.{StatusLaws}

module _ (d : Dependencies) (laws : StatusLaws d) where
  -- A pass over a settled case leaves it settled and does not call the planner.
  Idle : String → ℕ → Answer d × World d → Type 0
  Idle case_id plans m = laws.Settled m.1.env case_id × (m.1.plans ≡ plans)

  -- Passes one after the other.
  pub processes : List d.Case → World d → World d
  processes [] w = w
  processes (current ∷ rest) w = processes rest (process d current w).1
