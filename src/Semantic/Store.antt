-- ===== src/Semantic/Store.antt =====
-- The tables of the semantic layer, with the queries of backend/app/semantic/repository.py, and the
-- replies of its handlers. A key is unique in its table.
pub mod Rows
use Prim.Native.Nat.{ℕ}
use Prim.Native.String.{String}
use mathlib.Core.Bool.{Bool, true, false, not}
use mathlib.Core.Option.{Option, none, some}
use mathlib.Core.List.{List, [], ◌∷◌, map}
use drivee_tolmach.Common.{Text, filter, ◌==◌, same_list, same_ℕ, if◌then◌else◌}
use drivee_tolmach.Semantic.Errors as semantic
use drivee_tolmach.Semantic.Catalog.{Row, MetricRow, DimensionRow}
use drivee_tolmach.Semantic.Fragments.{Report, ok}
use drivee_tolmach.Semantic.Validators.{Term, Example, Template}

-- An example has no key of its own and is found by its id.
pub record Store : Type 0 where
  pub metrics : List MetricRow
  pub dimensions : List DimensionRow
  pub terms : List (Row Term)
  pub examples : List (ℕ × Row Example)
  pub templates : List (Row Template)

abbrev pub with_metrics : List MetricRow → Store → Store
with_metrics rows s = record {
  metrics = rows;
  dimensions = s.dimensions;
  terms = s.terms;
  examples = s.examples;
  templates = s.templates;
}

abbrev pub with_dimensions : List DimensionRow → Store → Store
with_dimensions rows s = record {
  metrics = s.metrics;
  dimensions = rows;
  terms = s.terms;
  examples = s.examples;
  templates = s.templates;
}

abbrev pub with_terms : List (Row Term) → Store → Store
with_terms rows s = record {
  metrics = s.metrics;
  dimensions = s.dimensions;
  terms = rows;
  examples = s.examples;
  templates = s.templates;
}

abbrev pub with_examples : List (ℕ × Row Example) → Store → Store
with_examples rows s = record {
  metrics = s.metrics;
  dimensions = s.dimensions;
  terms = s.terms;
  examples = rows;
  templates = s.templates;
}

abbrev pub with_templates : List (Row Template) → Store → Store
with_templates rows s = record {
  metrics = s.metrics;
  dimensions = s.dimensions;
  terms = s.terms;
  examples = s.examples;
  templates = rows;
}

-- The tables after the handler, an HTTPException, or the class of another exception. What raises does
-- not commit, so that the tables stay as they were.
pub data Detail : Type 0 where
  says : Text → Detail
  reports : Report → Detail

pub data Reply {ℓ} (A : Type ℓ) : Type ℓ where
  replied : A → Reply A
  http_error : ℕ → Detail → Reply A
  failed : String → Reply A

infixl 5 ◌>>=◌ ◌>>◌
unfoldable pub ◌>>=◌ {ℓ κ} : {A : Type ℓ} {B : Type κ} → Reply A → (A → Reply B) → Reply B
replied a >>= f = f a
http_error status detail >>= f = http_error status detail
failed class_name >>= f = failed class_name

abbrev pub ◌>>◌ {ℓ} : {B : Type ℓ} → Reply (Unit {0}) → Reply B → Reply B
m >> k = m >>= λ _. k

-- `if test: raise HTTPException(status_code=status, detail=detail)`
unfoldable pub http_if : Bool → ℕ → Text → Reply (Unit {0})
http_if test status detail = if test then http_error status (says detail) else replied tt

-- `if not instance: raise HTTPException(status_code=404, detail=detail)`
unfoldable pub or_missing {ℓ} : {A : Type ℓ} → Option A → Text → Reply A
or_missing (some a) detail = replied a
or_missing none detail = http_error 404 (says detail)

-- `if not report.ok: raise HTTPException(status_code=422, detail=report.as_dict())`
unfoldable pub valid : Report → Reply (Unit {0})
valid report = if ok report then replied tt else http_error 422 (reports report)

unfoldable pub validated : semantic.Compiled Report → Reply (Unit {0})
validated (semantic.compiled report) = valid report
validated (semantic.refused reason) = failed "SemanticCompilationError"
validated (semantic.crashed class_name) = failed class_name

module _ {A : Type 0} (key_of : A → Text) where
  abbrev pub row_key : Row A → Text
  row_key row = key_of row.definition

  abbrev pub has_key : Text → Row A → Bool
  has_key key row = row_key row == key

  -- the keys of a table
  abbrev pub keys_of : List (Row A) → List Text
  keys_of rows = map row_key rows

  -- the keys of its active rows
  abbrev pub active_keys : List (Row A) → List Text
  active_keys rows = keys_of (filter (λ row. row.is_active) rows)

  unfoldable pub get_row : Text → List (Row A) → Option (Row A)
  get_row key [] = none
  get_row key (row ∷ rows) = if has_key key row then some row else get_row key rows

  unfoldable pub exists_row : Text → List (Row A) → Bool
  exists_row key rows = elim (get_row key rows) [ some row ↦ true | none ↦ false ]

  -- `apply_model_updates` on the row with a key
  unfoldable pub put_row : Text → Row A → List (Row A) → List (Row A)
  put_row key new rows = map (λ row. if has_key key row then new else row) rows

  -- `delete_model_instance`
  unfoldable pub drop_row : Text → List (Row A) → List (Row A)
  drop_row key rows = filter (λ row. not (has_key key row)) rows
