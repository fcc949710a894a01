-- ===== src/Dlt/CodeCheck/Asked.antt =====
-- What the probes of the replay precheck rest on: the repository's own answers (`_probe_path` of
-- src/dlt/code_check.py).
use agentic_resident_crm.Prelude.{
  ℕ, true, List, [], ◌∷◌, Option, none, some, Text, text_eq, ◌==◌, text_beq_iff, All, any, ◌≡◌,
  refl, ap, subst, arith, Bool-cases, inl, inr, ◌⊎◌, is_some,
}
use mathlib.Core.Option.{some-injective}
use agentic_resident_crm.Dlt.CodeCheck.Frames.{FrameLocation}
use agentic_resident_crm.Dlt.CodeCheck.Probes.{
  Repo, Commit, Bitbucket, FrameProbe, mapped, Resolved, found, unresolved, resolve_frame, seen_at,
  commits_at, probe_resolved, probe_from, probe_path,
}

module _ (bitbucket : Bitbucket) (branch_override : Option Text) (failed_at : Option ℕ) where
  -- The frame stands in this file of this repository.
  abbrev pub IsIn : Repo → Text → FrameLocation → Type 0
  IsIn repo path l = resolve_frame bitbucket branch_override l ≡ found repo path

  abbrev pub Some : (FrameLocation → Type 0) → List FrameLocation → Type 0
  Some P [] = ⊥
  Some P (l ∷ ls) = P l ⊎ Some P ls

  -- A repository in which some frame has a file of this path answers so when it is asked for the
  -- commits to that file since the failure.
  pub record IsAsked (all : List FrameLocation) (path : Text) (commits : Option (List Commit))
      : Type 0 where
    pub repo : Repo
    pub there : Some (IsIn repo path) all
    pub answer : bitbucket.commits_touching repo path failed_at ≡ commits

  abbrev IsAnswered : List FrameLocation → Resolved → FrameProbe → Type 0
  IsAnswered all (unresolved why) p = p.path ≡ none
  IsAnswered all (found repo path) p = (p.path ≡ some path) × IsAsked all path p.commits

  abbrev AreAnswered : List FrameLocation → List FrameLocation → List FrameProbe → Type 0
  AreAnswered all [] ps = ps ≡ []
  AreAnswered all (l ∷ ls) [] = ⊥
  AreAnswered all (l ∷ ls) (p ∷ ps) =
      IsAnswered all (resolve_frame bitbucket branch_override l) p × AreAnswered all ls ps

  seen_at-IsAsked :
      (all : List FrameLocation) (path : Text) (seen : List (Text × Option (List Commit)))
      (commits : Option (List Commit))
      → All (λ s. IsAsked all s.0 s.1) seen
      → seen_at bitbucket branch_override path seen ≡ some commits
      → IsAsked all path commits
  seen_at-IsAsked all path [] commits asked h = cc
  seen_at-IsAsked all path ((q, before) ∷ seen) commits (first, rest) h =
      elim (Bool-cases (q == path)) [
        | inl same ↦
            subst (λ t. IsAsked all t commits) (ground (arith, same, text_beq_iff q path))
              (subst (IsAsked all q) (some-injective _ _ (rw same at h)) first)
        | inr other ↦ seen_at-IsAsked all path seen commits rest (rw other at h)
      ]

  commits_at-IsAsked :
      (all : List FrameLocation) (repo : Repo) (path : Text)
      (seen : List (Text × Option (List Commit))) (known : Option (Option (List Commit)))
      → Some (IsIn repo path) all
      → All (λ s. IsAsked all s.0 s.1) seen
      → seen_at bitbucket branch_override path seen ≡ known
      → let (commits, after) =
          commits_at bitbucket branch_override failed_at repo path seen known in
        IsAsked all path commits × All (λ s. IsAsked all s.0 s.1) after
  commits_at-IsAsked all repo path seen (some commits) there asked h =
      (seen_at-IsAsked all path seen commits asked h, asked)
  commits_at-IsAsked all repo path seen none there asked h = (now, (now, asked))
    where
      now : IsAsked all path (bitbucket.commits_touching repo path failed_at)
      now = record { repo = repo; there = there; answer = refl }

  probe_resolved-IsAnswered :
      (all : List FrameLocation) (l : FrameLocation) (r : Resolved)
      (seen : List (Text × Option (List Commit)))
      → ((repo : Repo) (path : Text) → r ≡ found repo path → Some (IsIn repo path) all)
      → All (λ s. IsAsked all s.0 s.1) seen
      → let (p, after) = probe_resolved bitbucket branch_override failed_at l r seen in
        IsAnswered all r p × All (λ s. IsAsked all s.0 s.1) after
  probe_resolved-IsAnswered all l (unresolved why) seen there asked = (refl, asked)
  probe_resolved-IsAnswered all l (found repo path) seen there asked =
      let (now, after) =
        commits_at-IsAsked all repo path seen (seen_at bitbucket branch_override path seen)
          (there repo path refl) asked refl in
      ((refl, now), after)

  probe_from-AreAnswered :
      (all ls : List FrameLocation) (seen : List (Text × Option (List Commit)))
      → ((repo : Repo) (path : Text) → Some (IsIn repo path) ls → Some (IsIn repo path) all)
      → All (λ s. IsAsked all s.0 s.1) seen
      → AreAnswered all ls (probe_from bitbucket branch_override failed_at ls seen)
  unfolding probe_from
  probe_from-AreAnswered all [] seen within asked = refl
  probe_from-AreAnswered all (l ∷ ls) seen within asked =
      let (now, after) =
        probe_resolved-IsAnswered all l (resolve_frame bitbucket branch_override l) seen
          (λ repo path e. within repo path (inl e)) asked in
      (now, probe_from-AreAnswered all ls _ (λ repo path h. within repo path (inr h)) after)

  -- The frame stands in no known file, or in one of whose path the repository says that it has no
  -- commit since the failure.
  abbrev pub IsQuiet : List FrameLocation → Resolved → Type 0
  IsQuiet all (unresolved why) = Unit
  IsQuiet all (found repo path) = IsAsked all path (some [])

  -- Some frame stands in a known file, and the files of all that do are quiet.
  pub record IsUntouched (ls : List FrameLocation) : Type 0 where
    pub known : Some (λ l. (repo : Repo) × (path : Text) × IsIn repo path l) ls
    pub quiet : All (λ l. IsQuiet ls (resolve_frame bitbucket branch_override l)) ls

  answered-known :
      (all : List FrameLocation) (l : FrameLocation) (r : Resolved) (p : FrameProbe)
      → resolve_frame bitbucket branch_override l ≡ r
      → IsAnswered all r p
      → mapped p ≡ true
      → (repo : Repo) × (path : Text) × IsIn repo path l
  answered-known all l (unresolved why) p e h there = absurd (ground (arith, h, there))
  answered-known all l (found repo path) p e h there = (repo, path, e)

  answered-IsQuiet :
      (all : List FrameLocation) (r : Resolved) (p : FrameProbe)
      → IsAnswered all r p
      → (mapped p ≡ true → p.commits ≡ some [])
      → IsQuiet all r
  answered-IsQuiet all (unresolved why) p h bare = tt
  answered-IsQuiet all (found repo path) p (e, asked) bare =
      subst (IsAsked all path) (bare (ap is_some e)) asked

  answered-Some :
      (all ls : List FrameLocation) (ps : List FrameProbe)
      → AreAnswered all ls ps
      → any mapped ps ≡ true
      → Some (λ l. (repo : Repo) × (path : Text) × IsIn repo path l) ls
  answered-Some all [] ps e h = cc (h, rw e at h)
  answered-Some all (l ∷ ls) [] e h = elim e [ ]
  answered-Some all (l ∷ ls) (p ∷ ps) (now, later) h = elim (Bool-cases (mapped p)) [
    | inl there ↦ inl (answered-known all l _ p refl now there)
    | inr not_there ↦ inr (answered-Some all ls ps later (rw not_there at h))
  ]

  answered-All :
      (all ls : List FrameLocation) (ps : List FrameProbe)
      → AreAnswered all ls ps
      → All (λ p. mapped p ≡ true → p.commits ≡ some []) ps
      → All (λ l. IsQuiet all (resolve_frame bitbucket branch_override l)) ls
  answered-All all [] ps e bare = tt
  answered-All all (l ∷ ls) [] e bare = elim e [ ]
  answered-All all (l ∷ ls) (p ∷ ps) (now, later) (b, bare) =
      (answered-IsQuiet all _ p now b, answered-All all ls ps later bare)

  pub probed-IsUntouched :
      (ls : List FrameLocation)
      → any mapped (probe_path bitbucket branch_override failed_at ls) ≡ true
      → All
          (λ p. mapped p ≡ true → p.commits ≡ some [])
          (probe_path bitbucket branch_override failed_at ls)
      → IsUntouched ls
  unfolding probe_path
  probed-IsUntouched ls some_there bare = record {
    known = answered-Some ls ls _ answered some_there;
    quiet = answered-All ls ls _ answered bare;
  }
    where
      answered : AreAnswered ls ls (probe_from bitbucket branch_override failed_at ls [])
      answered = probe_from-AreAnswered ls ls [] (λ repo path h. h) tt
