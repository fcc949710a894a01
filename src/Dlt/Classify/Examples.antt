-- ===== src/Dlt/Classify/Examples.antt =====
-- The classification of src/dlt/classify.py at sample failures.
use agentic_resident_crm.Prelude.{true, Text, codes, List, [], ◌∷◌, none, some, ◌≡◌, ◌↔◌, ◌⊎◌, refl}
use agentic_resident_crm.Dlt.Findings.{FailureClass, business, code_defect, technical}
use agentic_resident_crm.Dlt.Classify.Table.{
  default_class_map, lookup_class, exact_class, best_prefix,
}
use agentic_resident_crm.Dlt.Classify.Classes.{ClassifySettings, declares, Catalog, Root, classify}
use agentic_resident_crm.Dlt.Classify.Lookup.{IsLongest, lookup_class-IsLongest}
use agentic_resident_crm.Dlt.Classify.Catalog.{
  IsMoved, IsListedDefect, classify-catalog, classify-code_defect,
}

abbrev mapping : List (Text × FailureClass)
mapping =
    (codes "java.net", technical)
    ∷ (codes "java.net.UnknownHost", business)
    ∷ (codes "java.lang.NullPointer", code_defect)
    ∷ []

abbrev settings : ClassifySettings
settings = record {
  business_exceptions = codes "x.BusinessException" ∷ [];
  class_map = default_class_map;
  reason_code_classification_enabled = true;
}

abbrev catalog : Catalog
catalog = some (λ code. declares technical)

abbrev raised_root : Root
raised_root = record {
  fqcn = codes "x.BusinessException";
  message = some (codes "[UID_DOWN] no answer");
}

lookup_class-IsLongest_example : IsLongest mapping (codes "java.net.UnknownHostException") business
unfolding lookup_class exact_class best_prefix
lookup_class-IsLongest_example =
    lookup_class-IsLongest mapping (codes "java.net.UnknownHostException") business refl

classify-catalog_example :
    (classify settings catalog (some raised_root) none
      ≡ classify settings none (some raised_root) none)
    ⊎ IsMoved settings catalog
        (classify settings none (some raised_root) none)
        (classify settings catalog (some raised_root) none)
classify-catalog_example = classify-catalog settings catalog (some raised_root) none

abbrev null_root : Root
null_root = record { fqcn = codes "java.lang.NullPointerException"; message = none }

classify-code_defect_example :
    ((classify settings none (some null_root) none).failure_class ≡ code_defect)
    ↔ ((r : Root) × (some null_root ≡ some r) × IsListedDefect settings r)
classify-code_defect_example = classify-code_defect settings none (some null_root) none
