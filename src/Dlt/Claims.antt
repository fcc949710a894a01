-- ===== src/Dlt/Claims.antt =====
-- One analysis per dead-letter record, src/dlt/claims.py. The claims and the aliases are two
-- stores, since they are different files of a key. `finished` is what `terminal_status` and
-- `storage_key` of the case store say, both parameters here.
pub mod Holder
pub mod Race
mod Examples
use agentic_resident_crm.Prelude.{
  ℕ, ◌-◌, Bool, true, false, not, ◌&&◌, ◌||◌, String, List, [], ◌∷◌, Option, none, some,
  if◌then◌else◌, ltb, ◌==◌, string_eq, get_or, contains, codes, nat_eq, Text, reverse,
}
use agentic_resident_crm.Storage.{Disk, Answer, answered, raised, load, save, create_json}
use agentic_resident_crm.Dlt.Findings.{truthy}
use agentic_resident_crm.Dlt.Parked.{is_event_id}

pub record ClaimDoc : Type 0 where
  pub case_id : String
  pub ref_id : Option String
  pub claimed_at : Option ℕ
  pub reclaimed_from : Option String
  pub reclaimed_after : Option ℕ

pub record Alias : Type 0 where
  pub ref_id : String
  pub seen_at : ℕ

pub data ClaimOutcome : Type 0 where
  fresh same_delivery reclaimed duplicate disabled error : ClaimOutcome

pub record Claim : Type 0 where
  pub won : Bool
  pub outcome : ClaimOutcome
  pub holder_ref_id : Option String

pub record ClaimStore : Type 0 where
  pub claims : Disk ClaimDoc
  pub aliases : Disk Alias

pub record ClaimSettings : Type 0 where
  pub claims_enabled : Bool
  pub claim_ttl : ℕ

abbrev pub result : Bool → ClaimOutcome → Option String → Claim
result won outcome holder = record { won = won; outcome = outcome; holder_ref_id = holder }

-- `holder == ref_id`
abbrev pub is_ref : Option String → String → Bool
is_ref none ref = false
is_ref (some h) ref = h == ref

abbrev pub holder_of_doc : Option ClaimDoc → Option String
holder_of_doc none = none
holder_of_doc (some d) = d.ref_id

abbrev pub claimed_at_of : Option ClaimDoc → ℕ
claimed_at_of none = 0
claimed_at_of (some d) = get_or d.claimed_at 0

unfoldable pub taken_over :
    String → Answer (Unit {0}) × Disk ClaimDoc → Disk Alias → Answer Claim × ClaimStore
taken_over ref (answered _, claims) aliases =
    (answered (result true reclaimed (some ref)), record { claims = claims; aliases = aliases })
taken_over ref (raised, claims) aliases = (raised, record { claims = claims; aliases = aliases })

-- An error lets the case through.
unfoldable pub failing_open : Answer Claim → Claim
failing_open (answered c) = c
failing_open raised = result true error none

abbrev pub claim_doc : String → String → ℕ → ClaimDoc
claim_doc case_id ref now = record {
  case_id = case_id;
  ref_id = some ref;
  claimed_at = some now;
  reclaimed_from = none;
  reclaimed_after = none;
}

abbrev pub holder_read : Answer (Option ClaimDoc) → Option String
holder_read raised = none
holder_read (answered o) = holder_of_doc o

-- `$` also stands before a line feed that ends the text.
abbrev pub without_feed : Text → Text
without_feed [] = []
without_feed (c ∷ t) = if c == 10 then t else c ∷ t

-- `_SAFE_NAME.match(ref_id)`
abbrev pub is_safe_name : String → Bool
is_safe_name ref = is_event_id (reverse (without_feed (reverse (codes ref))))

module _ (settings : ClaimSettings) (alias_key : String → String → String)
    (terminal_status : String → Answer (Option String)) (storage_key : String → String → String)
    (terminal_statuses : List String) where
  -- `_record_alias`: an alias that cannot be a file name, or cannot be written, is not recorded.
  unfoldable pub record_alias : String → String → ℕ → Disk Alias → Disk Alias
  record_alias case_id ref now aliases =
      if is_safe_name ref
      then (create_json (alias_key case_id ref) (record { ref_id = ref; seen_at = now }) aliases).1
      else aliases

  abbrev pub is_terminal : Answer (Option String) → Bool
  is_terminal raised = false
  is_terminal (answered none) = false
  is_terminal (answered (some s)) = contains terminal_statuses s

  -- `_is_finished`
  unfoldable pub is_finished : String → String → Bool
  is_finished ref case_id =
      is_terminal (terminal_status (if ref == case_id then case_id else storage_key ref case_id))

  abbrev pub holder_finished : Option String → String → Bool
  holder_finished none case_id = false
  holder_finished (some h) case_id = truthy (some h) && is_finished h case_id

  -- From the existing claim on.
  unfoldable pub contest :
      String → String → ℕ → Option ClaimDoc → ClaimStore → Answer Claim × ClaimStore
  contest case_id ref now existing store =
      let holder = holder_of_doc existing in
      let age = now - claimed_at_of existing in
      if is_ref holder ref
      then (answered (result true same_delivery holder), store)
      else if holder_finished holder case_id
      then (answered (result false duplicate holder), store)
      else if not (truthy holder) || ltb settings.claim_ttl age
      then taken_over ref
          (save case_id
            (record {
              case_id = case_id;
              ref_id = some ref;
              claimed_at = some now;
              reclaimed_from = holder;
              reclaimed_after = some age;
            })
            store.claims)
          store.aliases
      else (answered (result false duplicate holder), store)

  unfoldable pub claim_loaded :
      String
      → String
      → ℕ
      → Answer (Option ClaimDoc) × Disk ClaimDoc
      → Disk Alias
      → Answer Claim × ClaimStore
  claim_loaded case_id ref now (raised, claims) aliases =
      (raised, record { claims = claims; aliases = aliases })
  claim_loaded case_id ref now (answered existing, claims) aliases =
      contest case_id ref now existing
        (record { claims = claims; aliases = record_alias case_id ref now aliases })

  unfoldable pub claim_created :
      String → String → ℕ → Answer Bool × Disk ClaimDoc → Disk Alias → Answer Claim × ClaimStore
  claim_created case_id ref now (answered true, claims) aliases = (
    answered (result true fresh (some ref)),
    record { claims = claims; aliases = record_alias case_id ref now aliases },
  )
  claim_created case_id ref now (answered false, claims) aliases =
      claim_loaded case_id ref now (load case_id claims) aliases
  claim_created case_id ref now (raised, claims) aliases =
      (raised, record { claims = claims; aliases = aliases })

  -- `_claim`
  unfoldable pub claim : String → String → ℕ → ClaimStore → Answer Claim × ClaimStore
  claim case_id ref now store =
      claim_created case_id ref now (create_json case_id (claim_doc case_id ref now) store.claims)
        store.aliases

  unfoldable pub claim_case : String → String → ℕ → ClaimStore → Claim × ClaimStore
  claim_case case_id ref now store =
      let (answer, after) = claim case_id ref now store in
      if settings.claims_enabled
      then (failing_open answer, after)
      else (result true disabled none, store)

  unfoldable pub holder_of : String → ClaimStore → Option String
  holder_of case_id store =
      if settings.claims_enabled then holder_read (load case_id store.claims).0 else none
