-- ===== src/Dlt/Parked/Entries.antt =====
-- The parked entries and how they are read: `_usable_key`, `_load`, `_already_parked`, `_entries`
-- and `list_parked` of src/dlt/parked.py. Times are counted in one unit from the epoch.
use agentic_resident_crm.Prelude.{
  ℕ, Bool, true, false, ◌&&◌, ◌||◌, String, Text, List, [], ◌∷◌, Option, none, some, if◌then◌else◌,
  codes, leb, ltb, ◌==◌, nat_eq, length, get_or, keep,
}
use agentic_resident_crm.Storage.{Disk, Answer, answered, raised, load, list_events}
use agentic_resident_crm.Dlt.Versions.{strip}
use agentic_resident_crm.Dlt.Findings.{Action, truthy}
use agentic_resident_crm.Dlt.AutoReplay.{AttemptResult}

pub data Status : Type 0 where
  parked released expired : Status

pub record Entry : Type 0 where
  pub case_id : Option String
  pub ref_id : Option String
  pub required_version : Option Text
  pub baseline_version : Option Text
  pub running_version_when_parked : Option Text
  pub repo : Option Text
  pub path : Option Text
  pub action : Option Action
  pub parked_at : Option ℕ
  pub status : Option Status
  pub expired_at : Option ℕ
  pub released_at : Option ℕ
  pub released_at_version : Option Text
  pub release_result : Option AttemptResult
  pub last_release_attempt_at : Option ℕ
  pub last_release_result : Option AttemptResult

abbrev pub is_parked : Option Status → Bool
is_parked (some parked) = true
is_parked _ = false

-- `[A-Za-z0-9_.:-]`, of `EVENT_ID_PATTERN`.
abbrev pub is_id_char : ℕ → Bool
is_id_char c =
    (leb b'A' c && leb c b'Z')
    || (leb b'a' c && leb c b'z')
    || (leb b'0' c && leb c b':')
    || c == b'_'
    || c == b'.'
    || c == b'-'

abbrev pub all_id_chars : Text → Bool
all_id_chars [] = true
all_id_chars (c ∷ t) = is_id_char c && all_id_chars t

abbrev pub is_event_id : Text → Bool
is_event_id t = leb 1 (length t) && leb (length t) 128 && all_id_chars t

unfoldable pub usable_key : String → Bool
unfolding strip
usable_key case_id = is_event_id (strip (codes case_id))

-- `_load`: an exception reads as no entry.
abbrev pub read_entry : Answer (Option Entry) → Option Entry
read_entry (answered o) = o
read_entry raised = none

-- One document of `_entries`, with the key that stands in for a missing case id.
abbrev pub named_by : String → Option Entry → List Entry → List Entry
named_by key none rest = rest
named_by key (some e) rest =
    record e { case_id = if truthy e.case_id then e.case_id else some key } ∷ rest

unfoldable pub entries_from : List String → Disk Entry → List Entry × Disk Entry
entries_from [] disk = ([], disk)
entries_from (key ∷ keys) disk =
    let (answer, disk') = load key disk in
    let (rest, disk'') = entries_from keys disk' in (named_by key (read_entry answer) rest, disk'')

abbrev pub keys_of : Answer (List String) → List String
keys_of (answered keys) = keys
keys_of raised = []

unfoldable pub entries : Disk Entry → List Entry × Disk Entry
entries disk = let (answer, disk') = list_events disk in entries_from (keys_of answer) disk'

-- `sorted(…, key=parked_at or 0)`, a stable sort.
abbrev pub age_key : Entry → ℕ
age_key e = get_or e.parked_at 0

unfoldable pub insert_by_age : Entry → List Entry → List Entry
insert_by_age e [] = e ∷ []
insert_by_age e (x ∷ xs) =
    if ltb (age_key x) (age_key e) then x ∷ insert_by_age e xs else e ∷ x ∷ xs

unfoldable pub sort_by_age : List Entry → List Entry
unfolding insert_by_age
sort_by_age [] = []
sort_by_age (x ∷ xs) = insert_by_age x (sort_by_age xs)

-- `list_parked()`
unfoldable pub list_parked : Bool → Disk Entry → List Entry × Disk Entry
list_parked include_finished disk =
    let (all, disk') = entries disk in
    (sort_by_age (if include_finished then all else keep (λ e. is_parked e.status) all), disk')
