-- ===== src/Dlt/CodeCheck/Highest.antt =====
-- Which version the precheck asks for when several changes touched the call path
-- (src/dlt/code_check.py).
use agentic_resident_crm.Prelude.{
  ℕ, true, false, List, [], ◌∷◌, ◌++◌, Option, none, some, Text, text_eq, All, ◌≢◌, contains, take,
  ◌≡◌, refl, Bool-cases, inl, inr, ◌∙◌,
}
use agentic_resident_crm.Dlt.Versions.{
  Version, Sign, less, equal, greater, is_greater, text, compare, resolve, compare_versions, map₂,
}
use agentic_resident_crm.Dlt.Versions.Order.{
  flip, compare_versions-flip, compare_versions-less_trans, compare_versions_irrefl,
}
use agentic_resident_crm.Dlt.CodeCheck.Probes.{Repo, Commit, Bitbucket, FrameProbe}
use agentic_resident_crm.Dlt.CodeCheck.Shipping.{
  Candidate, Scan, no_scan, or_none, candidate, exceeds, raise_required, first_containing_version,
  scan_commit, scan_commits, scan_probes, commits_of,
}

flip_greater : (s : Sign) → is_greater s ≡ true → flip s ≡ less
flip_greater less h = cc
flip_greater equal h = cc
flip_greater greater h = refl

not_greater_trans :
    (w q v : Version)
    → is_greater (compare_versions w q) ≡ false
    → is_greater (compare_versions v q) ≡ true
    → is_greater (compare_versions w v) ≡ false
not_greater_trans w q v low high = elim (Bool-cases (is_greater (compare_versions w v))) [
  | inr there ↦ there
  | inl above ↦ cc (
    low,
    compare_versions-flip q w,
    compare_versions-less_trans q v w (below v q high) (below w v above),
  )
]
  where
    below : (a b : Version) → is_greater (compare_versions a b) ≡ true → compare_versions b a ≡ less
    below a b h = compare_versions-flip a b ∙ flip_greater (compare_versions a b) h

not_above_itself : (v : Version) → is_greater (compare_versions v v) ≡ false
not_above_itself v = elim (Bool-cases (is_greater (compare_versions v v))) [
  | inr there ↦ there
  | inl above ↦
      elim (compare_versions_irrefl v
        (compare_versions-flip v v ∙ flip_greater (compare_versions v v) above)) [ ]
]

exceeds_trans :
    (w q v : Option Version)
    → exceeds (map₂ compare_versions w q) ≡ false
    → exceeds (map₂ compare_versions v q) ≡ true
    → exceeds (map₂ compare_versions w v) ≡ false
exceeds_trans none q v low high = refl
exceeds_trans (some w) none none low high = cc
exceeds_trans (some w) none (some v) low high = cc
exceeds_trans (some w) (some q) none low high = cc
exceeds_trans (some w) (some q) (some v) low high = not_greater_trans w q v low high

exceeds_itself : (v : Option Version) → exceeds (map₂ compare_versions v v) ≡ false
exceeds_itself none = refl
exceeds_itself (some v) = not_above_itself v

-- A version that was found does not exceed the required one, where they can be compared.
abbrev pub IsCovered : (Text → Option Text) → Option Text → Option Text → Type 0
IsCovered custom required none = Unit
IsCovered custom none (some v) = ⊥
IsCovered custom (some q) (some v) = (q ≢ []) × (exceeds (compare custom (text v) (text q)) ≡ false)

module _ (custom : Text → Option Text) where
  raise_required-keeps :
      (v required w : Option Text)
      → IsCovered custom required w
      → IsCovered custom (raise_required custom v required) w
  unfolding raise_required compare
  raise_required-keeps v required none h = tt
  raise_required-keeps none required (some w) h = h
  raise_required-keeps (some []) none (some w) h = elim h [ ]
  raise_required-keeps (some []) (some q) (some w) h = h
  raise_required-keeps (some (c ∷ v)) none (some w) h = elim h [ ]
  raise_required-keeps (some (c ∷ v)) (some []) (some w) h = elim (h.0 refl) [ ]
  raise_required-keeps (some (c ∷ v)) (some (d ∷ q)) (some w) h =
      elim (Bool-cases (exceeds (compare custom (text (c ∷ v)) (text (d ∷ q))))) [
        | inl above ↦ rw above (
          λ e. cc,
          exceeds_trans (resolve custom (text w)) (resolve custom (text (d ∷ q)))
              (resolve custom (text (c ∷ v))) h.1 above,
        )
        | inr other ↦ rw other h
      ]

  raise_required-covers :
      (v required : Option Text) → IsCovered custom (raise_required custom v required) (or_none v)
  unfolding raise_required compare
  raise_required-covers none required = tt
  raise_required-covers (some []) required = tt
  raise_required-covers (some (c ∷ v)) none =
      (λ e. cc, exceeds_itself (resolve custom (text (c ∷ v))))
  raise_required-covers (some (c ∷ v)) (some []) =
      (λ e. cc, exceeds_itself (resolve custom (text (c ∷ v))))
  raise_required-covers (some (c ∷ v)) (some (d ∷ q)) =
      elim (Bool-cases (exceeds (compare custom (text (c ∷ v)) (text (d ∷ q))))) [
        | inl above ↦ rw above (λ e. cc, exceeds_itself (resolve custom (text (c ∷ v))))
        | inr other ↦ rw other (λ e. cc, other)
      ]

  abbrev pub AllCovered : Scan → Type 0
  AllCovered scan =
      All (λ c. IsCovered custom scan.required c.first_containing_version) scan.candidates

  All-raised :
      (v required : Option Text) (cs : List Candidate) (new : Candidate)
      → new.first_containing_version ≡ or_none v
      → All (λ c. IsCovered custom required c.first_containing_version) cs
      → All
          (λ c. IsCovered custom (raise_required custom v required) c.first_containing_version)
          (cs ++ (new ∷ []))
  All-raised v required [] new e h = (rw e (raise_required-covers v required), tt)
  All-raised v required (c ∷ cs) new e (h, hs) = (
    raise_required-keeps v required c.first_containing_version h,
    All-raised v required cs new e hs,
  )

  module _ (bitbucket : Bitbucket) where
    scan_commit-covered :
        (repo : Repo) (path : Option Text) (c : Commit) (scan : Scan)
        → AllCovered scan
        → AllCovered (scan_commit bitbucket custom repo path c scan)
    unfolding scan_commit
    scan_commit-covered repo path c scan h = elim (Bool-cases (contains scan.seen_commits c.id)) [
      | inl seen ↦ rw seen h
      | inr anew ↦ rw anew (
          All-raised (first_containing_version bitbucket repo c).0 scan.required scan.candidates
            (candidate c path (first_containing_version bitbucket repo c)) refl h)
    ]

    scan_commits-covered :
        (repo : Repo) (path : Option Text) (cs : List Commit) (scan : Scan)
        → AllCovered scan
        → AllCovered (scan_commits bitbucket custom repo path cs scan)
    unfolding scan_commits
    scan_commits-covered repo path [] scan h = h
    scan_commits-covered repo path (c ∷ cs) scan h =
        scan_commits-covered repo path cs (scan_commit bitbucket custom repo path c scan)
          (scan_commit-covered repo path c scan h)

    scan_probes-kept :
        (repo : Repo) (max_candidates : ℕ) (probes : List FrameProbe) (scan : Scan)
        → AllCovered scan
        → AllCovered (scan_probes bitbucket custom repo max_candidates probes scan)
    unfolding scan_probes
    scan_probes-kept repo max_candidates [] scan h = h
    scan_probes-kept repo max_candidates (p ∷ ps) scan h =
        scan_probes-kept repo max_candidates ps _
          (scan_commits-covered repo p.path (take max_candidates (commits_of p.commits)) scan h)

-- The version that the precheck requires is the highest: no candidate's version exceeds it, where
-- the two can be compared, and where some candidate has a version, one is required.
pub scan_probes-covered :
    (bitbucket : Bitbucket) (custom : Text → Option Text) (repo : Repo) (max_candidates : ℕ)
    (probes : List FrameProbe)
    → AllCovered custom (scan_probes bitbucket custom repo max_candidates probes no_scan)
scan_probes-covered bitbucket custom repo max_candidates probes =
    scan_probes-kept custom bitbucket repo max_candidates probes no_scan tt
