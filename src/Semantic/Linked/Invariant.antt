-- ===== src/Semantic/Linked/Invariant.antt =====
-- The references between the tables through a sequence of requests
use drivee_tolmach.Common.{Unicode}
use drivee_tolmach.Guardrails.Statement.{Sqlglot}
use drivee_tolmach.Semantic.Store.{Store}
use drivee_tolmach.Semantic.Store.Rows.{Leaves, Leaves-reply}
use drivee_tolmach.Semantic.Admin.Handlers.{
  creates_metric, updates_metric, deletes_metric, creates_dimension, updates_dimension,
  deletes_dimension, creates_term, updates_term, deletes_term, creates_example, updates_example,
  deletes_example, creates_template, updates_template, deletes_template, Operation, handle,
}
use drivee_tolmach.Semantic.Linked.{IsLinked, Administered, untouched, handled}
use drivee_tolmach.Semantic.Linked.Kept.{
  create_metric-IsLinked, update_metric-IsLinked, delete_metric-IsLinked, create_dimension-IsLinked,
  update_dimension-IsLinked, delete_dimension-IsLinked, create_term-IsLinked, update_term-IsLinked,
  delete_term-IsLinked, create_example-IsLinked, update_example-IsLinked, delete_example-IsLinked,
  create_template-IsLinked, update_template-IsLinked, delete_template-IsLinked,
}

module _ ⦃u : Unicode⦄ (sqlglot : Sqlglot) where
  handle-IsLinked :
      (op : Operation) (s : Store) → IsLinked s → Leaves IsLinked (handle sqlglot op s)
  unfolding handle
  handle-IsLinked (creates_metric m is_active user) s h =
      create_metric-IsLinked sqlglot s h m is_active user
  handle-IsLinked (updates_metric key patch user) s h =
      update_metric-IsLinked sqlglot s h key patch user
  handle-IsLinked (deletes_metric key) s h = delete_metric-IsLinked s h key
  handle-IsLinked (creates_dimension d is_active user) s h =
      create_dimension-IsLinked sqlglot s h d is_active user
  handle-IsLinked (updates_dimension key patch user) s h =
      update_dimension-IsLinked sqlglot s h key patch user
  handle-IsLinked (deletes_dimension key) s h = delete_dimension-IsLinked s h key
  handle-IsLinked (creates_term t is_active user) s h = create_term-IsLinked s h t is_active user
  handle-IsLinked (updates_term term patch user) s h = update_term-IsLinked s h term patch user
  handle-IsLinked (deletes_term term) s h = delete_term-IsLinked s h term
  handle-IsLinked (creates_example id e is_active user) s h =
      create_example-IsLinked s h id e is_active user
  handle-IsLinked (updates_example id patch user) s h = update_example-IsLinked s h id patch user
  handle-IsLinked (deletes_example id) s h = delete_example-IsLinked s h id
  handle-IsLinked (creates_template t is_active user) s h =
      create_template-IsLinked s h t is_active user
  handle-IsLinked (updates_template key patch user) s h =
      update_template-IsLinked s h key patch user
  handle-IsLinked (deletes_template key) s h = delete_template-IsLinked s h key

  -- Through any sequence of requests to create, update or delete a metric, a dimension, a term, an example
  -- or an approved template, each of which replies, every dimension and filter that a metric allows, and the
  -- metric, dimensions and filters of every example and template, stay those of a row, if they were before.
  pub Administered-IsLinked : (s t : Store) → Administered sqlglot s t → IsLinked s → IsLinked t
  Administered-IsLinked s t (untouched) h = h
  Administered-IsLinked s t (handled {middle = middle} op before e) h =
      Leaves-reply IsLinked (handle sqlglot op middle) t
        (handle-IsLinked op middle (Administered-IsLinked s middle before h)) e
