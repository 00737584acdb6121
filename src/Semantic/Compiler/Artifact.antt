-- ===== src/Semantic/Compiler/Artifact.antt =====
-- What a compiled query keeps of its plan.
use mathlib.Core.Path.{◌≡◌}
use mathlib.Core.List.{List, map}
use drivee_tolmach.Common.{Unicode}
use drivee_tolmach.Settings.{Settings}
use drivee_tolmach.Guardrails.Statement.{returned, Statement, Sqlglot}
use drivee_tolmach.Semantic.Catalog.{SemanticCatalog}
use drivee_tolmach.Semantic.Literals.{Parsers}
use drivee_tolmach.Semantic.Request.{Interpretation}
use drivee_tolmach.Semantic.Planner.Sound.{IsSound}
use drivee_tolmach.Semantic.Compiler.{CompiledSemanticQuery, build_compiler_sql}

module _ ⦃u : Unicode⦄ (settings : Settings) (parsers : Parsers) (sqlglot : Sqlglot)
    (i : Interpretation) (catalog : SemanticCatalog) where
  -- The plan is sound, the tree is what the parser makes of the assembled text, every selected dimension
  -- is grouped, and the limit is the plan's.
  unfoldable pub IsArtifact : CompiledSemanticQuery → Type 0
  IsArtifact q =
      IsSound settings parsers i catalog q.planner_result
      × (sqlglot.parse_one (build_compiler_sql q.planner_result) ≡ returned q.ast)
      × (q.sql_plan.group_by ≡ map (λ d. d.select_sql) q.planner_result.dimensions)
      × (q.sql_plan.limit ≡ q.planner_result.limit)
