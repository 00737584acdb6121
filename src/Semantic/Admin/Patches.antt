-- ===== src/Semantic/Admin/Patches.antt =====
-- The patches of terms, examples and templates, laid over what is stored.
use mathlib.Core.Bool.{Bool}
use mathlib.Core.Option.{Option}
use mathlib.Core.List.{List}
use drivee_tolmach.Common.{Text}
use drivee_tolmach.Json.{Json}
use drivee_tolmach.Semantic.Validators.{Term, Example, Template}
use drivee_tolmach.Semantic.Admin.{or_kept}

pub record TermPatch : Type 0 where
  pub term : Option Text
  pub aliases : Option (List Text)
  pub mapped_entity_type : Option Text
  pub mapped_entity_key : Option Text
  pub is_active : Option Bool

abbrev pub patched_term : TermPatch → Term → Term
patched_term patch t = record {
  term = or_kept patch.term t.term;
  aliases = or_kept patch.aliases t.aliases;
  mapped_entity_type = or_kept patch.mapped_entity_type t.mapped_entity_type;
  mapped_entity_key = or_kept patch.mapped_entity_key t.mapped_entity_key;
}

pub record ExamplePatch : Type 0 where
  pub title : Option Text
  pub natural_text : Option Text
  pub metric_key : Option Text
  pub dimension_keys : Option (List Text)
  pub filter_keys : Option (List Text)
  pub canonical_intent_json : Option Json
  pub sql_example : Option Text
  pub domain_tag : Option Text
  pub is_active : Option Bool

abbrev pub patched_example : ExamplePatch → Example → Example
patched_example patch e = record {
  title = or_kept patch.title e.title;
  natural_text = or_kept patch.natural_text e.natural_text;
  metric_key = or_kept patch.metric_key e.metric_key;
  dimension_keys = or_kept patch.dimension_keys e.dimension_keys;
  filter_keys = or_kept patch.filter_keys e.filter_keys;
  canonical_intent_json = or_kept patch.canonical_intent_json e.canonical_intent_json;
  sql_example = or_kept patch.sql_example e.sql_example;
  domain_tag = or_kept patch.domain_tag e.domain_tag;
}

pub record TemplatePatch : Type 0 where
  pub title : Option Text
  pub description : Option Text
  pub natural_text : Option Text
  pub metric_key : Option Text
  pub dimension_keys : Option (List Text)
  pub filter_keys : Option (List Text)
  pub canonical_intent_json : Option Json
  pub chart_type : Option Text
  pub category : Option Text
  pub is_active : Option Bool

abbrev pub patched_template : TemplatePatch → Template → Template
patched_template patch t = record {
  template_key = t.template_key;
  title = or_kept patch.title t.title;
  description = or_kept patch.description t.description;
  natural_text = or_kept patch.natural_text t.natural_text;
  metric_key = or_kept patch.metric_key t.metric_key;
  dimension_keys = or_kept patch.dimension_keys t.dimension_keys;
  filter_keys = or_kept patch.filter_keys t.filter_keys;
  canonical_intent_json = or_kept patch.canonical_intent_json t.canonical_intent_json;
  chart_type = or_kept patch.chart_type t.chart_type;
  category = or_kept patch.category t.category;
}
