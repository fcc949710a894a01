-- ===== src/Dlt/Classify/Classes.antt =====
-- `classify` of src/dlt/classify.py with the tests that it calls.
use agentic_resident_crm.Prelude.{
  Bool, true, false, ◌||◌, Text, List, [], ◌∷◌, Option, none, some, if◌then◌else◌, codes, contains,
  ends_with, any, text_eq,
}
use agentic_resident_crm.Dlt.Findings.{FailureClass, business, code_defect, technical, unknown}
use agentic_resident_crm.Dlt.Versions.{has_part}
use agentic_resident_crm.Dlt.Classify.Codes.{extract_business_code}
use agentic_resident_crm.Dlt.Classify.Table.{lookup_class}

pub record ClassifySettings : Type 0 where
  pub business_exceptions : List Text
  pub class_map : List (Text × FailureClass)
  pub reason_code_classification_enabled : Bool

-- What the catalog callback does: an answer, none, or an exception.
pub data CatalogAnswer : Type 0 where
  declares : FailureClass → CatalogAnswer
  silent failed : CatalogAnswer

abbrev pub Catalog : Type 0
Catalog = Option (Text → CatalogAnswer)

-- The root of a parsed stack trace.
pub record Root : Type 0 where
  pub fqcn : Text
  pub message : Option Text

pub data Ground : Type 0 where
  header_code header_technical no_trace : Ground
  raised_technical raised_with_code raised_without_code : Ground
  mapped_defect mapped_technical mapped_business : Ground
  wraps_technical wraps_business unrecognised : Ground

pub record Classification : Type 0 where
  pub failure_class : FailureClass
  pub root_fqcn : Text
  pub business_code : Option Text
  pub reason : Ground

abbrev pub needs_llm : Classification → Bool
needs_llm c = elim (c.failure_class) [ business ↦ true | _ ↦ false ]

abbrev pub verdict : FailureClass → Text → Option Text → Ground → Classification
verdict k fqcn code reason = record {
  failure_class = k;
  root_fqcn = fqcn;
  business_code = code;
  reason = reason;
}

module _ (settings : ClassifySettings) where
  unfoldable pub is_business_exception : Text → Bool
  is_business_exception [] = false
  is_business_exception (c ∷ t) =
      contains settings.business_exceptions (c ∷ t) || ends_with (c ∷ t) (codes "BusinessException")

  unfoldable pub answer_of : CatalogAnswer → Option FailureClass
  answer_of (declares k) = some k
  answer_of silent = none
  answer_of failed = none

  unfoldable pub catalog_class : Catalog → Text → Option FailureClass
  unfolding answer_of
  catalog_class none code = none
  catalog_class (some ask) code =
      if settings.reason_code_classification_enabled then answer_of (ask code) else none

  abbrev pub is_technical : Option FailureClass → Bool
  is_technical (some technical) = true
  is_technical _ = false

  -- Class A for a code, or C where the catalog says so.
  unfoldable pub by_catalog : Catalog → Text → Text → Ground → Ground → Classification
  unfolding catalog_class
  by_catalog catalog fqcn code moved kept =
      if is_technical (catalog_class catalog code)
      then verdict technical fqcn (some code) moved
      else verdict business fqcn (some code) kept

  unfoldable pub without_root : Catalog → Option Text → Classification
  unfolding by_catalog
  without_root catalog (some code) = by_catalog catalog [] code header_technical header_code
  without_root catalog none = verdict unknown [] none no_trace

  unfoldable pub business_root : Catalog → Text → Option Text → Classification
  unfolding by_catalog
  business_root catalog fqcn (some code) =
      by_catalog catalog fqcn code raised_technical raised_with_code
  business_root catalog fqcn none = verdict business fqcn none raised_without_code

  -- `text or ""`
  abbrev pub or_empty : Option Text → Text
  or_empty none = []
  or_empty (some t) = t

  unfoldable pub mentions_business : Text → Bool
  mentions_business message =
      has_part (codes "BusinessException") message
      || any (λ be. has_part be message) settings.business_exceptions

  unfoldable pub wrapped : Catalog → Root → Option Text → Classification
  unfolding by_catalog mentions_business
  wrapped catalog root none = verdict unknown root.fqcn none unrecognised
  wrapped catalog root (some code) =
      if mentions_business (or_empty root.message)
      then by_catalog catalog root.fqcn code wraps_technical wraps_business
      else verdict unknown root.fqcn none unrecognised

  unfoldable pub mapped_root : Catalog → Root → Option Text → Option FailureClass → Classification
  unfolding wrapped
  mapped_root catalog root code (some code_defect) =
      verdict code_defect root.fqcn none mapped_defect
  mapped_root catalog root code (some technical) = verdict technical root.fqcn none mapped_technical
  mapped_root catalog root code (some business) = verdict business root.fqcn code mapped_business
  mapped_root catalog root code _ = wrapped catalog root code

  unfoldable pub with_root : Catalog → Root → Option Text → Classification
  with_root catalog root code =
      if is_business_exception root.fqcn
      then business_root catalog root.fqcn code
      else mapped_root catalog root code (lookup_class settings.class_map root.fqcn)

  abbrev pub is_empty : Text → Bool
  is_empty [] = true
  is_empty (c ∷ t) = false

  unfoldable pub classify : Catalog → Option Root → Option Text → Classification
  classify catalog none message = without_root catalog (extract_business_code (message ∷ []))
  classify catalog (some root) message =
      if is_empty root.fqcn
      then without_root catalog (extract_business_code (message ∷ []))
      else with_root catalog root (extract_business_code (root.message ∷ message ∷ []))
