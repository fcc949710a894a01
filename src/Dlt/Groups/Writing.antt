-- ===== src/Dlt/Groups/Writing.antt =====
-- The writes of src/dlt/group_store.py and the reads behind `load_group`, over the storage contract
-- with its faults. One fingerprint's objects are a store for each kind, and the caches are left out:
-- a record is never rewritten, and a write drops the composed group.
use agentic_resident_crm.Prelude.{
  ℕ, Bool, String, List, [], ◌∷◌, Option, none, some, if◌then◌else◌, or_else, get_or, string_eq,
  nat_eq, ◌==◌,
}
use agentic_resident_crm.Storage.{
  Disk, Answer, answered, raised, load, save, create_json, list_events,
}
use agentic_resident_crm.Dlt.Groups.Records.{
  Occurrence, Check, Meta, Finding, Verdict, Legacy, StoredGroup, no_meta,
}
use agentic_resident_crm.Dlt.Groups.Reading.{truthy, compose}

pub record GroupFiles (R : Type 0) (C : Type 0) : Type 0 where
  pub occurrences : Disk Occurrence
  pub checks : Disk Check
  pub metas : Disk Meta
  pub findings : Disk (Finding R)
  pub verdicts : Disk (Verdict C)
  pub legacies : Disk (Legacy R C)

-- What a case is registered with; `at` and `seq` are those of `_stamp`.
pub record Registration : Type 0 where
  pub case_id : String
  pub ref_id : Option String
  pub signature : String
  pub failure_class : String
  pub business_code : Option String
  pub corroboration : Option String
  pub at : ℕ
  pub seq : ℕ

module _ {D : Type 0} where
  abbrev pub with_record :
      String → Option D → Answer (List (String × D)) × Disk D → Answer (List (String × D)) × Disk D
  with_record name doc (raised, disk) = (raised, disk)
  with_record name none (answered rest, disk) = (answered rest, disk)
  with_record name (some d) (answered rest, disk) = (answered ((name, d) ∷ rest), disk)

  abbrev pub continued :
      String
      → Answer (Option D)
      → Disk D
      → Answer (List (String × D)) × Disk D
      → Answer (List (String × D)) × Disk D
  continued name raised disk rest = (raised, disk)
  continued name (answered doc) disk rest = with_record name doc rest

  unfoldable pub read_names : List String → Disk D → Answer (List (String × D)) × Disk D
  read_names [] disk = (answered [], disk)
  read_names (name ∷ names) disk =
      let (doc, after) = load name disk in continued name doc after (read_names names after)

  abbrev pub read_listed : Answer (List String) → Disk D → Answer (List (String × D)) × Disk D
  read_listed raised disk = (raised, disk)
  read_listed (answered names) disk = read_names names disk

  -- `_read_all`: a listed name without a document is passed over.
  unfoldable pub read_all : Disk D → Answer (List (String × D)) × Disk D
  read_all disk = let (names, after) = list_events disk in read_listed names after

-- The document of a kind that has one, under the name of its file.
abbrev pub meta_filename : String
meta_filename = "meta.json"

abbrev pub recommendation_filename : String
recommendation_filename = "recommendation.json"

abbrev pub code_check_filename : String
code_check_filename = "code_check.json"

abbrev pub legacy_filename : String
legacy_filename = "group.json"

-- `_load_legacy`: an exception reads as no record.
abbrev pub tolerated : {A : Type 0} → Answer (Option A) → Option A
tolerated raised = none
tolerated (answered doc) = doc

abbrev pub then_with : {A B : Type 0} → Answer A → (A → Answer B) → Answer B
then_with raised next = raised
then_with (answered a) next = next a

-- `record`'s values come first, then those that are there, then the defaults.
abbrev pub meta_of : Registration → Meta → Meta
meta_of reg existing = record {
  signature = some (get_or (or_else (truthy (some reg.signature)) (truthy existing.signature)) "");
  failure_class =
      some (get_or (or_else (truthy (some reg.failure_class)) (truthy existing.failure_class)) "U");
  business_code = or_else (truthy reg.business_code) existing.business_code;
  first_seen = some (get_or (nonzero existing.first_seen) reg.at);
}
  where
    nonzero : Option ℕ → Option ℕ
    nonzero none = none
    nonzero (some t) = if t == 0 then none else some t

abbrev pub occurrence_of : Registration → Occurrence
occurrence_of reg = record {
  case_id = some reg.case_id;
  ref_id = reg.ref_id;
  corroboration = reg.corroboration;
  at = some reg.at;
  seq = some reg.seq;
}

module _ {R C : Type 0} (cap : ℕ) (fingerprint : String) where
  -- A read changes no document.
  unfoldable pub load_group : GroupFiles R C → Answer (Option (StoredGroup R C))
  load_group f =
      if fingerprint == ""
      then answered none
      else then_with (read_all f.occurrences).0 (λ occurrences.
        then_with (read_all f.checks).0 (λ checks. then_with (load meta_filename f.metas).0 (λ meta.
          then_with (load recommendation_filename f.findings).0 (λ finding.
            then_with (load code_check_filename f.verdicts).0 (λ verdict. answered (
              compose cap fingerprint (record {
                occurrences = occurrences;
                checks = checks;
                meta = meta;
                finding = finding;
                verdict = verdict;
                legacy = tolerated (load legacy_filename f.legacies).0;
              })))))))

  -- `_reload`: what cannot be read back reads as no group.
  abbrev pub reload : GroupFiles R C → Option (StoredGroup R C)
  reload f = tolerated (load_group f)

  abbrev pub reloaded :
      Answer (Unit {0}) → GroupFiles R C → Answer (Option (StoredGroup R C)) × GroupFiles R C
  reloaded raised f = (raised, f)
  reloaded (answered _) f = (answered (reload f), f)

  unfoldable pub meta_saved :
      Registration
      → Answer (Option Meta)
      → GroupFiles R C
      → Answer (Option (StoredGroup R C)) × GroupFiles R C
  meta_saved reg raised f = (raised, f)
  meta_saved reg (answered existing) f =
      let (done, after) = save meta_filename (meta_of reg (get_or existing no_meta)) f.metas in
      reloaded done (record f { metas = after })

  unfoldable pub registered :
      Registration
      → Answer Bool
      → GroupFiles R C
      → Answer (Option (StoredGroup R C)) × GroupFiles R C
  registered reg raised f = (raised, f)
  registered reg (answered created) f =
      let (existing, after) = load meta_filename f.metas in
      meta_saved reg existing (record f { metas = after })

  unfoldable pub record_occurrence :
      Registration → GroupFiles R C → Answer (Option (StoredGroup R C)) × GroupFiles R C
  record_occurrence reg f =
      let (created, after) = create_json reg.case_id (occurrence_of reg) f.occurrences in
      registered reg created (record f { occurrences = after })

  unfoldable pub attach_recommendation :
      Finding R → GroupFiles R C → Answer (Option (StoredGroup R C)) × GroupFiles R C
  attach_recommendation finding f =
      let (done, after) = save recommendation_filename finding f.findings in
      reloaded done (record f { findings = after })

  abbrev pub checked :
      Answer Bool → GroupFiles R C → Answer (Option (StoredGroup R C)) × GroupFiles R C
  checked raised f = (raised, f)
  checked (answered created) f = (answered (reload f), f)

  unfoldable pub in_history :
      Option String
      → String
      → Answer (Unit {0})
      → GroupFiles R C
      → Answer (Option (StoredGroup R C)) × GroupFiles R C
  in_history verdict key raised f = (raised, f)
  in_history none key (answered _) f = (answered (reload f), f)
  in_history (some v) key (answered _) f =
      let (created, after) = create_json key (record { verdict = some v }) f.checks in
      checked created (record f { checks = after })

  -- `key` is the case's id, or a name no other writer uses.
  unfoldable pub attach_code_check :
      Verdict C
      → Option String
      → String
      → GroupFiles R C
      → Answer (Option (StoredGroup R C)) × GroupFiles R C
  attach_code_check document verdict key f =
      let (done, after) = save code_check_filename document f.verdicts in
      in_history (truthy verdict) key done (record f { verdicts = after })
