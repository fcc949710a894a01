-- ===== src/Dlt/Identity/Examples.antt =====
-- Case ids and storage keys at concrete inputs (src/dlt/identity.py).
use agentic_resident_crm.Prelude.{arith, true, none, some, Text, codes, ◌≡◌, refl, ◌⊎◌}
use agentic_resident_crm.Dlt.Parked.Entries.{is_event_id}
use agentic_resident_crm.Dlt.Versions.{strip}
use agentic_resident_crm.Dlt.Identity.{derive_case_id, storage_key}
use agentic_resident_crm.Dlt.Identity.Digits.{pos, negsuc, magnitude}
use agentic_resident_crm.Dlt.Identity.Valid.{derive_case_id-IsDerived}
use agentic_resident_crm.Dlt.Identity.Coordinates.{derive_case_id-coordinates, storage_key-apart}

abbrev hashed : Text → Text
hashed t = codes "00f1a2b3c4"

plain_id :
    derive_case_id hashed (some (codes "orders.dlt topic")) (some (pos 3)) (some (pos 1042)) none
    ≡ some (codes "dlt-orders.dlt-topic-3-1042")
unfolding derive_case_id strip
plain_id = refl

grouped_id :
    derive_case_id hashed
      (some (codes "orders"))
      (some (pos 0))
      (some (pos 7))
      (some (codes " billing "))
    ≡ some (codes "dlt-orders-0-7-g00f1a2b3c4")
unfolding derive_case_id strip
grouped_id = refl

one_key :
    storage_key hashed (some (codes "REF-9")) (codes "dlt-orders-0-7") ≡ codes "REF-9__00f1a2b3c4"
unfolding storage_key
one_key = refl

derive_case_id-IsDerived_example :
    (case_id : Text) × (derive_case_id hashed
        (some (codes "orders"))
        (some (pos 3))
        (some (pos 1042))
        none
      ≡ some case_id)
    × (is_event_id case_id ≡ true)
derive_case_id-IsDerived_example =
    derive_case_id-IsDerived hashed (λ t. refl) (λ t. refl) (codes "orders") (pos 3) (pos 1042) none
      (omega arith)

derive_case_id-coordinates_example : (magnitude (negsuc 0) ≡ magnitude (pos 1)) × (pos 5 ≡ pos 5)
unfolding derive_case_id strip
derive_case_id-coordinates_example =
    derive_case_id-coordinates hashed (codes "t") (codes "t-") (negsuc 0) (pos 1) (pos 5) (pos 5)
      none (codes "dlt-t--1-5") refl refl

storage_key-apart_example :
    (codes "dlt-a-0-1" ≡ codes "dlt-a-0-2")
    ⊎ (hashed (codes "dlt-a-0-1") ≡ hashed (codes "dlt-a-0-2"))
unfolding storage_key
storage_key-apart_example =
    storage_key-apart hashed (λ t. refl) (λ t. refl) (some (codes "REF-9")) (codes "dlt-a-0-1")
      (codes "dlt-a-0-2") refl
