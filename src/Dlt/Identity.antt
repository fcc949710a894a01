-- ===== src/Dlt/Identity.antt =====
-- Case ids and storage keys of dead-lettered records, src/dlt/identity.py. The digest of
-- `hashlib.sha256` is a parameter, ten characters of its hexadecimal form.
pub mod Digits
pub mod Valid
pub mod Coordinates
mod Examples
use agentic_resident_crm.Prelude.{
  ℕ, ◌+◌, ◌-◌, Bool, true, false, ◌&&◌, List, [], ◌∷◌, ◌++◌, Option, none, some, Text,
  if◌then◌else◌, leb, ltb, length, take, map, get_or,
}
use agentic_resident_crm.Dlt.Parked.Entries.{is_id_char, is_event_id}
use agentic_resident_crm.Dlt.Versions.{strip}
use agentic_resident_crm.Dlt.Identity.Digits.{ℤ, signed}

abbrev pub case_id_prefix : Text
case_id_prefix = b'd' ∷ b'l' ∷ b't' ∷ []

abbrev pub dash : Text
dash = b'-' ∷ []

abbrev pub max_case_id_length : ℕ
max_case_id_length = 128

abbrev pub sanitised : ℕ → ℕ
sanitised c = if is_id_char c then c else b'-'

abbrev pub sanitise : Text → Text
sanitise [] = []
sanitise (c ∷ t) = sanitised c ∷ sanitise t

-- `(consumer_group or "").strip()`
abbrev pub group_of : Option Text → Text
group_of consumer_group = strip (get_or consumer_group [])

module _ (digest : Text → Text) where
  abbrev pub group_suffix : Text → Text
  group_suffix [] = []
  group_suffix (c ∷ t) = b'-' ∷ b'g' ∷ digest (c ∷ t)

  abbrev pub suffix_of : ℤ → ℤ → Text → Text
  suffix_of partition offset group =
      dash ++ (signed partition ++ (dash ++ (signed offset ++ group_suffix group)))

  abbrev pub short_head : Text → Text
  short_head topic = case_id_prefix ++ (dash ++ sanitise topic)

  -- The room is 0 where the difference is negative, as `max(0, room)` has it.
  abbrev pub long_head : Text → Text → Text
  long_head topic suffix =
      let digits = digest topic in
      let room = max_case_id_length - (length suffix + length digits + length case_id_prefix + 2) in
      case_id_prefix ++ (dash ++ (take room (sanitise topic) ++ (dash ++ digits)))

  abbrev pub case_id_of : Text → Text → Text
  case_id_of topic suffix =
      if ltb max_case_id_length (length (short_head topic ++ suffix))
      then long_head topic suffix ++ suffix
      else short_head topic ++ suffix

  abbrev pub if_valid : Text → Option Text
  if_valid case_id = if is_event_id case_id then some case_id else none

  unfoldable pub derive_case_id : Option Text → Option ℤ → Option ℤ → Option Text → Option Text
  derive_case_id none partition offset consumer_group = none
  derive_case_id (some topic) none offset consumer_group = none
  derive_case_id (some topic) (some p) none consumer_group = none
  derive_case_id (some topic) (some p) (some o) consumer_group =
      if_valid (case_id_of topic (suffix_of p o (group_of consumer_group)))

  abbrev pub keyed : Text → Text → Text
  keyed ref_id case_id = ref_id ++ b'_' ∷ b'_' ∷ digest case_id

  unfoldable pub storage_key : Option Text → Text → Text
  storage_key none case_id = case_id
  storage_key (some []) case_id = case_id
  storage_key (some (c ∷ t)) case_id =
      let key = keyed (c ∷ t) case_id in
      if leb (length key) max_case_id_length && is_event_id key then key else case_id
