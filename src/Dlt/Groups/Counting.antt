-- ===== src/Dlt/Groups/Counting.antt =====
-- What the group of a fingerprint counts after its cases were registered (src/dlt/group_store.py).
use agentic_resident_crm.Prelude.{
  ℕ, suc, true, false, not, ◌||◌, String, List, [], ◌∷◌, Option, none, some, ◌==◌, string_eq,
  is_some, length, keep, map, lookup, All, ◌≡◌, refl, ap, ◌∙◌, arith, inl, inr, Bool-cases,
  Option-cases, eq_iff, if_on,
}
use agentic_resident_crm.Storage.{answered, calm, list_events, list_by}
use agentic_resident_crm.Storage.Laws.{load-calm, lookup-insert_same}
use agentic_resident_crm.Dlt.Groups.Records.{
  no_meta, Check, Finding, Verdict, Legacy, Occurrence, Meta, Parts, StoredGroup,
}
use agentic_resident_crm.Dlt.Groups.Reading.{
  sorted, insert_sorted, is_before, fresh_of, listed, compose, composed, has_parts,
}
use agentic_resident_crm.Dlt.Groups.Writing.{
  Registration, read_names, read_all, meta_filename, recommendation_filename, code_check_filename,
  legacy_filename, load_group, meta_of,
}
use agentic_resident_crm.Dlt.Groups.Recording.{
  distinct, cases_of, names, record_all, record_all-calm, calm_files, record_occurrence-calm, added,
  with_meta,
}

module _ {D : Type 0} where
  names-map : (docs : List (String × D)) → map (λ (e : String × D). e.0) docs ≡ names docs
  names-map [] = refl
  names-map ((name, d) ∷ rest) = ap (λ ns. name ∷ ns) (names-map rest)

  IsFoundIn : List (String × D) → String → Type 0
  IsFoundIn docs name = is_some (lookup name docs) ≡ true

  found-more :
      (name : String) (d : D) (docs : List (String × D)) (ns : List String)
      → All (IsFoundIn docs) ns
      → All (IsFoundIn ((name, d) ∷ docs)) ns
  unfolding IsFoundIn
  found-more name d docs [] all = tt
  found-more name d docs (n ∷ ns) (h, hs) = (ground (arith, h), found-more name d docs ns hs)

  names-found : (docs : List (String × D)) → All (IsFoundIn docs) (names docs)
  unfolding IsFoundIn
  names-found [] = tt
  names-found ((name, d) ∷ rest) =
      (ground (arith, eq_iff name name), found-more name d rest (names rest) (names-found rest))

  read_names-calm :
      (ns : List String) (docs : List (String × D))
      → All (IsFoundIn docs) ns
      → (records : List (String × D)) × (read_names ns (calm docs) ≡ (answered records, calm docs))
        × (length records ≡ length ns)
  unfolding read_names IsFoundIn
  read_names-calm [] docs all = ([], refl, refl)
  read_names-calm (n ∷ ns) docs (h, hs) = elim (Option-cases (lookup n docs)) [
    | inl e ↦ absurd (ground (arith, h, e))
    | inr (d, e) ↦
        let (records, run, same) = read_names-calm ns docs hs in
        ((n, d) ∷ records, rw (load-calm n docs) (rw e (rw run refl)), ap suc same)
  ]

  read_all-calm :
      (docs : List (String × D))
      → (records : List (String × D)) × ((read_all (calm docs)).0 ≡ answered records)
        × (length records ≡ length (names docs))
  unfolding read_all list_events list_by
  read_all-calm docs =
      let (records, run, same) = read_names-calm (names docs) docs (names-found docs) in
      (records, rw (names-map docs) (ap (λ r. r.0) run), same)

read_all-nothing : {D : Type 0} → (read_all (calm {D = D} [])).0 ≡ answered []
unfolding read_all list_events list_by read_names
read_all-nothing = refl

length-insert_sorted :
    (r : String × Occurrence) (rs : List (String × Occurrence))
    → length (insert_sorted r rs) ≡ suc (length rs)
length-insert_sorted r [] = refl
length-insert_sorted r (s ∷ rest) = elim (Bool-cases (is_before s.1 r.1)) [
  | inl b ↦ rw b (omega (arith, length-insert_sorted r rest))
  | inr b ↦ rw b refl
]

length-sorted : (rs : List (String × Occurrence)) → length (sorted rs) ≡ length rs
length-sorted [] = refl
length-sorted (r ∷ rest) = omega (arith, length-insert_sorted r (sorted rest), length-sorted rest)

listed-nothing : (o : Option String) → listed [] o ≡ false
listed-nothing none = refl
listed-nothing (some s) = refl

keep-nothing_listed :
    (rs : List (String × Occurrence))
    → length (keep (λ r. not (listed [] r.1.case_id || listed [] r.1.ref_id)) rs) ≡ length rs
keep-nothing_listed [] = refl
keep-nothing_listed (r ∷ rest) =
    rw (listed-nothing r.1.case_id, listed-nothing r.1.ref_id)
      (omega (arith, keep-nothing_listed rest))

length-fresh_of : (rs : List (String × Occurrence)) → length (fresh_of [] rs) ≡ length rs
length-fresh_of rs = keep-nothing_listed (sorted rs) ∙ length-sorted rs

module _ {R C : Type 0} (cap : ℕ) (fingerprint : String) where
  compose-made :
      (parts : Parts R C)
      → is_some parts.meta ≡ true
      → compose cap fingerprint parts ≡ some (composed cap fingerprint parts)
  unfolding compose
  compose-made parts there =
      if_on (has_parts parts) (some (composed cap fingerprint parts)) none (ground (arith, there))

  -- The parts of a fingerprint with these occurrences and nothing else but the description.
  abbrev parts_with : List (String × Occurrence) → Option Meta → Parts R C
  parts_with records meta = record {
    occurrences = records;
    checks = [];
    meta = meta;
    finding = none;
    verdict = none;
    legacy = none;
  }

  load_group-calm :
      (docs : List (String × Occurrence)) (metas : List (String × Meta))
      → (fingerprint == "") ≡ false
      → is_some (lookup meta_filename metas) ≡ true
      → (g : StoredGroup R C) × (load_group cap fingerprint (calm_files cap fingerprint docs metas)
          ≡ answered (some g))
        × (g.occurrence_count ≡ length (names docs))
  unfolding load_group composed
  load_group-calm docs metas named there =
      let (records, run, same) = read_all-calm docs in
      let parts = parts_with records (lookup meta_filename metas) in
      (
        composed cap fingerprint parts,
        rw
            (
              named,
              run,
              read_all-nothing {D = Check},
              ap (λ r. r.0) (load-calm meta_filename metas),
              ap (λ r. r.0) (load-calm {D = Finding R} recommendation_filename []),
              ap (λ r. r.0) (load-calm {D = Verdict C} code_check_filename []),
              ap (λ r. r.0) (load-calm {D = Legacy R C} legacy_filename []),
            )
            (ap answered (compose-made parts there)),
        omega (arith, length-fresh_of records, same),
      )

  -- In a store whose calls succeed and with no legacy record, the group that is loaded after any
  -- registrations of a fingerprint counts each case once, however often it was registered.
  pub record_all-count :
      (reg : Registration) (regs : List Registration)
      → (fingerprint == "") ≡ false
      → (g : StoredGroup R C) × (load_group cap fingerprint
            (record_all cap fingerprint (reg ∷ regs) (calm_files cap fingerprint [] []))
          ≡ answered (some g))
        × (g.occurrence_count ≡ length (distinct (cases_of (reg ∷ regs))))
  unfolding record_all
  record_all-count reg regs named =
      let (last, final, run, names_last, kept) =
        record_all-calm cap fingerprint regs (added reg []) (with_meta reg []) in
      let (g, loaded, count) =
        load_group-calm last final named
          (kept (ap is_some (lookup-insert_same meta_filename (meta_of reg no_meta) []))) in
      (
        g,
        ap (load_group cap fingerprint) (
              ap (record_all cap fingerprint regs)
                (record_occurrence-calm cap fingerprint reg [] [])
              ∙ run)
            ∙ loaded,
        count ∙ ap length (names_last ∙ refl),
      )
