-- ===== src/Dlt/Parked/Accounting.antt =====
-- What a run of the release worker does, and that its summary adds up (src/dlt/parked.py).
use agentic_resident_crm.Prelude.{
  ℕ, zero, suc, ◌+◌, ◌-◌, ltb, Bool, true, false, not, ◌&&◌, String, Text, List, [], ◌∷◌, ◌++◌,
  Option, none, some, if◌then◌else◌, length, map, keep, ◌≡◌, ◌∙◌, sym, ap, refl, arith, Bool-cases,
  inl, inr, length-append,
}
use mathlib.Core.List.{append-nil, append_assoc}
use agentic_resident_crm.Floats.{Floats}
use agentic_resident_crm.Dlt.Versions.{Version, at_least}
use agentic_resident_crm.Dlt.AutoReplay.{ReplaySettings, ReplayArgs, ToolOutcome, Attempt, attempt}
use agentic_resident_crm.Dlt.AutoReplay.Outcome.{named, attempt-named}
use agentic_resident_crm.Dlt.Parked.Entries.{Entry}
use agentic_resident_crm.Dlt.Parked.Parking.{ParkSettings}
use agentic_resident_crm.Dlt.Parked.Releasing.{
  Fate, is_expired, is_unknown, is_waiting, is_released, is_failed, Summary, Run, tally,
  version_operand, text_operand, is_overdue, expire, attempted, release_if, satisfied, release_one,
  release_from,
}

-- How long an entry has waited; one that tells no time has not.
abbrev pub waited : ℕ → Option ℕ → ℕ
waited now none = 0
waited now (some zero) = 0
waited now (some (suc t)) = now - suc t

abbrev pub is_yes : Option Bool → Bool
is_yes (some true) = true
is_yes _ = false

-- The counts of a summary account for every entry that was examined, a line for each.
pub record AddsUp (s : Summary) : Type 0 where
  pub counted : s.examined ≡ s.released + s.failed + s.expired + s.waiting + s.unknown
  pub listed : s.examined ≡ length s.entries

tally-AddsUp : (fate : Fate) (e : Entry) (s : Summary) → AddsUp s → AddsUp (tally fate e s)
unfolding tally
tally-AddsUp is_expired e s h = omega (arith, length-append {0})
tally-AddsUp is_unknown e s h = omega (arith, length-append {0})
tally-AddsUp is_waiting e s h = omega (arith, length-append {0})
tally-AddsUp is_released e s h = omega (arith, length-append {0})
tally-AddsUp is_failed e s h = omega (arith, length-append {0})

tally-examined :
    (fate : Fate) (e : Entry) (s : Summary) → (tally fate e s).examined ≡ s.examined + 1
unfolding tally
tally-examined is_expired e s = refl
tally-examined is_unknown e s = refl
tally-examined is_waiting e s = refl
tally-examined is_released e s = refl
tally-examined is_failed e s = refl

module _ (floats : Floats) (replay : ReplaySettings floats) (settings : ParkSettings)
    (custom : Text → Option Text) (tool : ReplayArgs → ToolOutcome) (now : ℕ) (dry_run : Bool)
    (running : Option Version) where
  -- The entry has waited longer than entries may, where there is a limit.
  abbrev pub is_late : Entry → Bool
  is_late e = ltb 0 settings.ttl_seconds && ltb settings.ttl_seconds (waited now e.parked_at)

  is_overdue_lem :
      (e : Entry) (parked_at : Option ℕ)
      → e.parked_at ≡ parked_at
      → is_overdue floats replay settings custom tool now dry_run running e ≡ is_late e
  unfolding is_overdue
  is_overdue_lem e none h = rw h (ground arith)
  is_overdue_lem e (some zero) h = rw h (ground arith)
  is_overdue_lem e (some (suc t)) h = rw h (ground arith)

  -- The entry is one that this run releases: its version is running, it is not late, and the
  -- run is no rehearsal.
  abbrev pub is_due : Entry → Bool
  is_due e =
      not dry_run
      && (not (is_late e)
          && is_yes (at_least custom (version_operand running) (text_operand e.required_version)))

  abbrev pub ids : List ReplayArgs → List String
  ids calls = map (λ (a : ReplayArgs). a.id) calls

  -- One step of the loop: what it adds to the summary and what it sends.
  record IsStep (e : Entry) (run after : Run) : Type 0 where
    sums : AddsUp run.summary → AddsUp after.summary
    counts : after.summary.examined ≡ run.summary.examined + 1
    sent :
        ids after.calls
        ≡ (if is_due e then ids run.calls ++ named floats replay e.ref_id else ids run.calls)
    rehearsed : dry_run ≡ true → after.disk ≡ run.disk

  attempted-sums :
      (e : Entry) (o : Attempt × List ReplayArgs) (run : Run)
      → AddsUp run.summary
      → AddsUp (attempted floats replay settings custom tool now dry_run running e o run).summary
  unfolding attempted
  attempted-sums e o run h = elim (Bool-cases o.0.queued) [
    | inl q ↦ rw q (tally-AddsUp is_released e run.summary h)
    | inr q ↦ rw q (tally-AddsUp is_failed e run.summary h)
  ]

  attempted-counts :
      (e : Entry) (o : Attempt × List ReplayArgs) (run : Run)
      → let after = attempted floats replay settings custom tool now dry_run running e o run in
        (after.summary.examined ≡ run.summary.examined + 1) × (after.calls ≡ o.1)
  unfolding attempted
  attempted-counts e o run = elim (Bool-cases o.0.queued) [
    | inl q ↦ rw q (tally-examined is_released e run.summary, refl)
    | inr q ↦ rw q (tally-examined is_failed e run.summary, refl)
  ]

  release_if-IsStep :
      (o : Option Bool) (e : Entry) (run : Run)
      → satisfied floats replay settings custom tool now dry_run running e ≡ o
      → is_late e ≡ false
      → IsStep e run (release_if floats replay settings custom tool now dry_run running o e run)
  unfolding release_if
  release_if-IsStep none e run h fresh = record {
    sums = tally-AddsUp is_unknown e run.summary;
    counts = tally-examined is_unknown e run.summary;
    sent = ground arith;
    rehearsed = λ d. refl;
  }
  release_if-IsStep (some false) e run h fresh = record {
    sums = tally-AddsUp is_waiting e run.summary;
    counts = tally-examined is_waiting e run.summary;
    sent = ground arith;
    rehearsed = λ d. refl;
  }
  release_if-IsStep (some true) e run h fresh = by_mode dry_run refl
    where
      made : Attempt × List ReplayArgs
      made = attempt floats replay tool e.ref_id run.calls

      by_mode :
          (b : Bool)
          → dry_run ≡ b
          → IsStep e run (
              if b
              then record run { summary = tally is_released e run.summary }
              else attempted floats replay settings custom tool now dry_run running e made run)
      by_mode true dry = record {
        sums = tally-AddsUp is_released e run.summary;
        counts = tally-examined is_released e run.summary;
        sent = ground arith;
        rehearsed = λ d. refl;
      }
      by_mode false live =
          let (counts, sent) = attempted-counts e made run in
          record {
            sums = attempted-sums e made run;
            counts = counts;
            sent = ap ids sent ∙ attempt-named floats replay tool e.ref_id run.calls ∙ ground arith;
            rehearsed = λ d. cc;
          }

  expire-IsStep :
      (e : Entry) (run : Run)
      → is_late e ≡ true
      → IsStep e run (expire floats replay settings custom tool now dry_run running e run)
  unfolding expire
  expire-IsStep e run over = record {
    sums = tally-AddsUp is_expired e run.summary;
    counts = tally-examined is_expired e run.summary;
    sent = ground arith;
    rehearsed = λ d. rw d;
  }

  release_one-IsStep :
      (e : Entry) (run : Run)
      → IsStep e run (release_one floats replay settings custom tool now dry_run running e run)
  unfolding release_one
  release_one-IsStep e run =
      by_age (is_overdue floats replay settings custom tool now dry_run running e) refl
    where
      by_age :
          (b : Bool)
          → is_overdue floats replay settings custom tool now dry_run running e ≡ b
          → IsStep e run (
              if b
              then expire floats replay settings custom tool now dry_run running e run
              else release_if floats replay settings custom tool now dry_run running
                  (satisfied floats replay settings custom tool now dry_run running e)
                  e
                  run)
      by_age true over = expire-IsStep e run (sym (is_overdue_lem e e.parked_at refl) ∙ over)
      by_age false fresh =
          release_if-IsStep (satisfied floats replay settings custom tool now dry_run running e) e
            run refl (sym (is_overdue_lem e e.parked_at refl) ∙ fresh)

  -- The refIds of entries, those that are not empty.
  abbrev pub named_all : List Entry → List String
  named_all [] = []
  named_all (e ∷ es) = named floats replay e.ref_id ++ named_all es

  grow :
      (b : Bool) (sent : List String) (e : Entry) (due : List Entry)
      → (if b then sent ++ named floats replay e.ref_id else sent) ++ named_all due
        ≡ sent ++ named_all (if b then e ∷ due else due)
  grow true sent e due = append_assoc sent (named floats replay e.ref_id) (named_all due)
  grow false sent e due = refl

  -- What the loop makes of a list of entries.
  pub record IsRun (es : List Entry) (run after : Run) : Type 0 where
    pub sums : AddsUp run.summary → AddsUp after.summary
    pub counts : after.summary.examined ≡ run.summary.examined + length es
    pub sent : ids after.calls ≡ ids run.calls ++ named_all (keep is_due es)
    pub rehearsed : dry_run ≡ true → after.disk ≡ run.disk

  pub release_from-IsRun :
      (es : List Entry) (run : Run)
      → IsRun es run (release_from floats replay settings custom tool now dry_run running es run)
  unfolding release_from
  release_from-IsRun [] run = record {
    sums = λ h. h;
    counts = omega arith;
    sent = sym (append-nil (ids run.calls));
    rehearsed = λ d. refl;
  }
  release_from-IsRun (e ∷ es) run =
      let next = release_one floats replay settings custom tool now dry_run running e run in
      let step = release_one-IsStep e run in
      let rest = release_from-IsRun es next in
      record {
        sums = λ h. rest.sums (step.sums h);
        counts = omega (arith, rest.counts, step.counts);
        sent =
            rest.sent
            ∙ ap (λ (l : List String). l ++ named_all (keep is_due es)) step.sent
            ∙ grow (is_due e) (ids run.calls) e (keep is_due es);
        rehearsed = λ d. rest.rehearsed d ∙ step.rehearsed d;
      }
