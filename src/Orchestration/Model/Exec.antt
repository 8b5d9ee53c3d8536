-- ===== src/Orchestration/Model/Exec.antt =====
-- An action on a store: it may fail, and what it wrote before it failed stays.
use pi_musubi_core.Prelude.{Result}
use pi_musubi_core.Orchestration.Model.{OrchestrationError}

abbrev pub Exec : Type 0 → Type 0 → Type 0
Exec S A = S → Result OrchestrationError A × S
