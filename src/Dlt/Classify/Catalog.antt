-- ===== src/Dlt/Classify/Catalog.antt =====
-- What the reason-code catalog may change, and where class B comes from, in `classify` of
-- src/dlt/classify.py.
use agentic_resident_crm.Prelude.{
  true, false, Text, Option, none, some, ◌≡◌, ◌≢◌, ◌↔◌, ◌⊎◌, inl, inr, refl, Bool-cases,
}
use agentic_resident_crm.Dlt.Findings.{FailureClass, business, code_defect, technical}
use agentic_resident_crm.Dlt.Classify.Table.{lookup_class}
use agentic_resident_crm.Dlt.Classify.Classes.{
  ClassifySettings, Catalog, Root, Ground, Classification, is_business_exception, catalog_class,
  is_technical, by_catalog, without_root, business_root, mentions_business, wrapped, mapped_root,
  with_root, is_empty, classify, or_empty,
}

module _ (settings : ClassifySettings) where
  -- The catalog made a case of class A one of class C, and changed nothing else of it but the
  -- reason.
  pub record IsMoved (catalog : Catalog) (before after : Classification) : Type 0 where
    pub code : Text
    pub was : before.failure_class ≡ business
    pub now : after.failure_class ≡ technical
    pub had_code : before.business_code ≡ some code
    pub same_code : after.business_code ≡ before.business_code
    pub same_root : after.root_fqcn ≡ before.root_fqcn
    pub declared : is_technical settings (catalog_class settings catalog code) ≡ true

  abbrev Agrees : Catalog → Classification → Classification → Type 0
  Agrees catalog before after = (after ≡ before) ⊎ IsMoved catalog before after

  by_catalog-Agrees :
      (catalog : Catalog) (fqcn code : Text) (moved kept : Ground)
      → Agrees catalog
          (by_catalog settings none fqcn code moved kept)
          (by_catalog settings catalog fqcn code moved kept)
  unfolding by_catalog
  by_catalog-Agrees catalog fqcn code moved kept =
      elim (Bool-cases (is_technical settings (catalog_class settings catalog code))) [
        | inl tech ↦ inr (
            rw tech (record {
              code = code;
              was = refl;
              now = refl;
              had_code = refl;
              same_code = refl;
              same_root = refl;
              declared = tech;
            }))
        | inr other ↦ inl (rw other)
      ]

  without_root-Agrees :
      (catalog : Catalog) (o : Option Text)
      → Agrees catalog (without_root settings none o) (without_root settings catalog o)
  unfolding without_root
  without_root-Agrees catalog none = inl refl
  without_root-Agrees catalog (some code) = by_catalog-Agrees catalog _ code _ _

  business_root-Agrees :
      (catalog : Catalog) (fqcn : Text) (o : Option Text)
      → Agrees catalog (business_root settings none fqcn o) (business_root settings catalog fqcn o)
  unfolding business_root
  business_root-Agrees catalog fqcn none = inl refl
  business_root-Agrees catalog fqcn (some code) = by_catalog-Agrees catalog _ code _ _

  wrapped-Agrees :
      (catalog : Catalog) (root : Root) (o : Option Text)
      → Agrees catalog (wrapped settings none root o) (wrapped settings catalog root o)
  unfolding wrapped
  wrapped-Agrees catalog root none = inl refl
  wrapped-Agrees catalog root (some code) =
      elim (Bool-cases (mentions_business settings (or_empty settings root.message))) [
        | inl b ↦ rw b (by_catalog-Agrees catalog root.fqcn code _ _)
        | inr b ↦ inl (rw b)
      ]

  mapped_root-Agrees :
      (catalog : Catalog) (root : Root) (o : Option Text) (k : Option FailureClass)
      → Agrees catalog (mapped_root settings none root o k) (mapped_root settings catalog root o k)
  unfolding mapped_root
  mapped_root-Agrees catalog root o (some code_defect) = inl refl
  mapped_root-Agrees catalog root o (some technical) = inl refl
  mapped_root-Agrees catalog root o (some business) = inl refl
  mapped_root-Agrees catalog root o _ = wrapped-Agrees catalog root o

  with_root-Agrees :
      (catalog : Catalog) (root : Root) (o : Option Text)
      → Agrees catalog (with_root settings none root o) (with_root settings catalog root o)
  unfolding with_root
  with_root-Agrees catalog root o = elim (Bool-cases (is_business_exception settings root.fqcn)) [
    | inl b ↦ rw b (business_root-Agrees catalog root.fqcn o)
    | inr b ↦ rw b (mapped_root-Agrees catalog root o (lookup_class settings.class_map root.fqcn))
  ]

  -- The catalog only ever moves a case from class A to class C, never the other way and never to
  -- B: with it the classification is what it was without, or it was A with a code that the catalog
  -- declares technical and becomes C with the same code and root.
  pub classify-catalog :
      (catalog : Catalog) (root : Option Root) (message : Option Text)
      → (classify settings catalog root message ≡ classify settings none root message)
        ⊎ IsMoved catalog
            (classify settings none root message)
            (classify settings catalog root message)
  unfolding classify
  classify-catalog catalog none message = without_root-Agrees catalog _
  classify-catalog catalog (some root) message = elim (Bool-cases (is_empty settings root.fqcn)) [
    | inl b ↦ rw b (without_root-Agrees catalog _)
    | inr b ↦ rw b (with_root-Agrees catalog root _)
  ]

  by_catalog-ne :
      (catalog : Catalog) (fqcn code : Text) (moved kept : Ground)
      → (by_catalog settings catalog fqcn code moved kept).failure_class ≢ code_defect
  unfolding by_catalog
  by_catalog-ne catalog fqcn code moved kept =
      elim (Bool-cases (is_technical settings (catalog_class settings catalog code))) [
        | inl tech ↦ rw tech (λ e. cc)
        | inr other ↦ rw other (λ e. cc)
      ]

  without_root-ne :
      (catalog : Catalog) (o : Option Text)
      → (without_root settings catalog o).failure_class ≢ code_defect
  unfolding without_root
  without_root-ne catalog none = λ e. cc
  without_root-ne catalog (some code) = by_catalog-ne catalog _ code _ _

  business_root-ne :
      (catalog : Catalog) (fqcn : Text) (o : Option Text)
      → (business_root settings catalog fqcn o).failure_class ≢ code_defect
  unfolding business_root
  business_root-ne catalog fqcn none = λ e. cc
  business_root-ne catalog fqcn (some code) = by_catalog-ne catalog _ code _ _

  wrapped-ne :
      (catalog : Catalog) (root : Root) (o : Option Text)
      → (wrapped settings catalog root o).failure_class ≢ code_defect
  unfolding wrapped
  wrapped-ne catalog root none = λ e. cc
  wrapped-ne catalog root (some code) =
      elim (Bool-cases (mentions_business settings (or_empty settings root.message))) [
        | inl b ↦ rw b (by_catalog-ne catalog root.fqcn code _ _)
        | inr b ↦ rw b (λ e. cc)
      ]

  mapped_root-defect :
      (catalog : Catalog) (root : Root) (o : Option Text) (k : Option FailureClass)
      → (mapped_root settings catalog root o k).failure_class ≡ code_defect
      → k ≡ some code_defect
  unfolding mapped_root
  mapped_root-defect catalog root o (some code_defect) h = refl
  mapped_root-defect catalog root o (some technical) h = cc
  mapped_root-defect catalog root o (some business) h = cc
  mapped_root-defect catalog root o _ h = absurd (wrapped-ne catalog root o h)

  -- The exception type of the root is one that the table lists as a code defect.
  pub record IsListedDefect (root : Root) : Type 0 where
    pub named : is_empty settings root.fqcn ≡ false
    pub not_business : is_business_exception settings root.fqcn ≡ false
    pub listed : lookup_class settings.class_map root.fqcn ≡ some code_defect

  with_root-defect :
      (catalog : Catalog) (root : Root) (o : Option Text)
      → is_empty settings root.fqcn ≡ false
      → (with_root settings catalog root o).failure_class ≡ code_defect
      → IsListedDefect root
  unfolding with_root
  with_root-defect catalog root o n h =
      elim (Bool-cases (is_business_exception settings root.fqcn)) [
        | inl b ↦ absurd (business_root-ne catalog root.fqcn o (rw b at h))
        | inr b ↦ record {
          named = n;
          not_business = b;
          listed = mapped_root-defect catalog root o _ (rw b at h);
        }
      ]

  -- Class B comes only from the exception's type: a case is filed as a code defect exactly where
  -- its trace has a root whose type is no business exception and which the table lists as a
  -- defect. An unknown type, a code or the catalog never lead there.
  pub classify-code_defect :
      (catalog : Catalog) (root : Option Root) (message : Option Text)
      → ((classify settings catalog root message).failure_class ≡ code_defect)
        ↔ ((r : Root) × (root ≡ some r) × IsListedDefect r)
  unfolding classify with_root mapped_root
  classify-code_defect catalog root message = (from root, back)
    where
      from :
          (o : Option Root)
          → (classify settings catalog o message).failure_class ≡ code_defect
          → (r : Root) × (o ≡ some r) × IsListedDefect r
      from none h = absurd (without_root-ne catalog _ h)
      from (some r) h = elim (Bool-cases (is_empty settings r.fqcn)) [
        | inl b ↦ absurd (without_root-ne catalog _ (rw (classify, b) at h))
        | inr b ↦ (r, refl, with_root-defect catalog r _ b (rw (classify, b) at h))
      ]

      back :
          (r : Root) × (root ≡ some r) × IsListedDefect r
          → (classify settings catalog root message).failure_class ≡ code_defect
      back (r, e, d) = rw e (rw d.named (rw (d.not_business, d.listed)))
