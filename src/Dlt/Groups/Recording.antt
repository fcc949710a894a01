-- ===== src/Dlt/Groups/Recording.antt =====
-- A fingerprint's count is the number of its distinct cases (src/dlt/group_store.py).
use agentic_resident_crm.Prelude.{
  ℕ, Bool, true, false, String, List, [], ◌∷◌, ◌++◌, none, if◌then◌else◌, string_eq, is_some,
  get_or, contains, lookup, insert, ◌≡◌, refl, ap, sym, ◌∙◌, arith, inl, inr, Option-cases, if_off,
  if_on,
}
use agentic_resident_crm.Storage.{Disk, Answer, answered, calm}
use agentic_resident_crm.Storage.Laws.{
  create_json-calm, create_json-fresh, load-calm, save-calm, lookup-insert_same,
}
use agentic_resident_crm.Dlt.Groups.Records.{Occurrence, Meta, no_meta}
use agentic_resident_crm.Dlt.Groups.Writing.{
  GroupFiles, Registration, meta_filename, meta_of, occurrence_of, meta_saved, registered,
  record_occurrence,
}

-- The cases in the order in which each first comes.
abbrev pub distinct_onto : List String → List String → List String
distinct_onto seen [] = seen
distinct_onto seen (c ∷ cs) = distinct_onto (if contains seen c then seen else seen ++ c ∷ []) cs

abbrev pub distinct : List String → List String
distinct cases = distinct_onto [] cases

abbrev pub cases_of : List Registration → List String
cases_of [] = []
cases_of (reg ∷ regs) = reg.case_id ∷ cases_of regs

abbrev pub names : {D : Type 0} → List (String × D) → List String
names [] = []
names ((name, d) ∷ rest) = name ∷ names rest

-- What a registration adds to the occurrences.
abbrev pub added : Registration → List (String × Occurrence) → List (String × Occurrence)
added reg docs =
    if is_some (lookup reg.case_id docs) then docs else insert reg.case_id (occurrence_of reg) docs

contains-names :
    {D : Type 0} (key : String) (docs : List (String × D))
    → contains (names docs) key ≡ is_some (lookup key docs)
contains-names key [] = refl
contains-names key ((name, d) ∷ rest) = ground (arith, contains-names key rest)

names-insert :
    {D : Type 0} (key : String) (d : D) (docs : List (String × D))
    → lookup key docs ≡ none
    → names (insert key d docs) ≡ names docs ++ key ∷ []
names-insert key d [] h = refl
names-insert key d ((name, old) ∷ rest) h = ground (arith, names-insert key d rest)

abbrev pub with_meta : Registration → List (String × Meta) → List (String × Meta)
with_meta reg metas =
    insert meta_filename (meta_of reg (get_or (lookup meta_filename metas) no_meta)) metas

pub names-added :
    (reg : Registration) (docs : List (String × Occurrence))
    → names (added reg docs)
      ≡ (if contains (names docs) reg.case_id then names docs else names docs ++ reg.case_id ∷ [])
names-added reg docs = elim (Option-cases (lookup reg.case_id docs)) [
  | inl fresh ↦
      rw (contains-names reg.case_id docs)
        (rw fresh (names-insert reg.case_id (occurrence_of reg) docs fresh))
  | inr (old, e) ↦ rw (contains-names reg.case_id docs) (rw e refl)
]

module _ {R C : Type 0} (cap : ℕ) (fingerprint : String) where
  -- A fingerprint's stores whose calls succeed, with no legacy record.
  abbrev pub calm_files : List (String × Occurrence) → List (String × Meta) → GroupFiles R C
  calm_files docs metas = record {
    occurrences = calm docs;
    checks = calm [];
    metas = calm metas;
    findings = calm [];
    verdicts = calm [];
    legacies = calm [];
  }

  unfoldable pub record_all : List Registration → GroupFiles R C → GroupFiles R C
  record_all [] f = f
  record_all (reg ∷ regs) f = record_all regs (record_occurrence cap fingerprint reg f).1

  registered-calm :
      (reg : Registration) (created : Bool) (docs : List (String × Occurrence))
      (metas : List (String × Meta))
      → (registered cap fingerprint reg (answered created) (calm_files docs metas)).1
        ≡ calm_files docs (with_meta reg metas)
  unfolding registered meta_saved
  registered-calm reg created docs metas = rw (load-calm meta_filename metas) (
      rw (save-calm meta_filename (meta_of reg (get_or (lookup meta_filename metas) no_meta)) metas)
        refl)

  pub record_occurrence-calm :
      (reg : Registration) (docs : List (String × Occurrence)) (metas : List (String × Meta))
      → (record_occurrence cap fingerprint reg (calm_files docs metas)).1
        ≡ calm_files (added reg docs) (with_meta reg metas)
  unfolding record_occurrence
  record_occurrence-calm reg docs metas = elim (Option-cases (lookup reg.case_id docs)) [
    | inl fresh ↦
        ap after (create_json-fresh reg.case_id (occurrence_of reg) docs fresh)
        ∙ registered-calm reg true (insert reg.case_id (occurrence_of reg) docs) metas
        ∙ ap (λ d. calm_files d (with_meta reg metas)) (sym (if_off _ docs _ (ap is_some fresh)))
    | inr (old, e) ↦
        ap after (create_json-calm reg.case_id (occurrence_of reg) old docs e)
        ∙ registered-calm reg false docs metas
        ∙ ap (λ d. calm_files d (with_meta reg metas))
            (sym (if_on _ docs (insert reg.case_id (occurrence_of reg) docs) (ap is_some e)))
  ]
    where
      after : Answer Bool × Disk Occurrence → GroupFiles R C
      after result =
          (registered cap fingerprint reg result.0
            (record (calm_files docs metas) { occurrences = result.1 })).1

  -- After any registrations the occurrences are those of the distinct cases.
  pub record_all-calm :
      (regs : List Registration) (docs : List (String × Occurrence)) (metas : List (String × Meta))
      → (last : List (String × Occurrence)) × (final : List (String × Meta)) × (record_all regs
            (calm_files docs metas)
          ≡ calm_files last final)
        × (names last ≡ distinct_onto (names docs) (cases_of regs))
        × (is_some (lookup meta_filename metas) ≡ true
            → is_some (lookup meta_filename final) ≡ true)
  unfolding record_all
  record_all-calm [] docs metas = (docs, metas, refl, refl, λ h. h)
  record_all-calm (reg ∷ regs) docs metas =
      let (last, final, run, names_last, kept) =
        record_all-calm regs (added reg docs) (with_meta reg metas) in
      (
        last,
        final,
        ap (record_all regs) (record_occurrence-calm reg docs metas) ∙ run,
        names_last ∙ ap (λ seen. distinct_onto seen (cases_of regs)) (names-added reg docs),
        λ h. kept (ap is_some (lookup-insert_same meta_filename _ metas)),
      )
