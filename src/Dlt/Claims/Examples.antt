-- ===== src/Dlt/Claims/Examples.antt =====
-- The claims of src/dlt/claims.py at sample deliveries.
use agentic_resident_crm.Prelude.{
  true, false, String, List, [], ◌∷◌, Option, none, some, All, ◌≡◌, ◌≢◌, ◌⊎◌, ◌==◌, string_eq,
  eq_iff, refl, arith,
}
use agentic_resident_crm.Storage.{Answer, answered, calm, create_json}
use agentic_resident_crm.Dlt.Claims.{
  Claim, ClaimStore, ClaimSettings, claim_case, holder_of, fresh, error, duplicate, result, claim,
  claim_created, failing_open,
}
use agentic_resident_crm.Dlt.Claims.Holder.{IsHeldBy, claim_case-holds}
use agentic_resident_crm.Dlt.Claims.Race.{Delivery, deliver, deliver-one_winner}

abbrev settings : ClaimSettings
settings = record { claims_enabled = true; claim_ttl = 600 }

abbrev alias_key : String → String → String
alias_key case_id ref = ref

abbrev unfinished : String → Answer (Option String)
unfinished key = answered none

abbrev storage_key : String → String → String
storage_key ref case_id = ref

abbrev empty : ClaimStore
empty = record { claims = calm []; aliases = calm [] }

abbrev first : Delivery
first = record { ref_id = "ref-1"; at = 100 }

abbrev again : List Delivery
again = (record { ref_id = "ref-2"; at = 101 }) ∷ (record { ref_id = "ref-3"; at = 400 }) ∷ []

wins :
    (claim_case settings alias_key unfinished storage_key [] "dlt-1" "ref-1" 100 empty).0.won ≡ true
unfolding claim_case claim claim_created failing_open create_json
wins = refl

claim_case-holds_example :
    ((claim_case settings alias_key unfinished storage_key [] "dlt-1" "ref-1" 100 empty).0.outcome
      ≡ error)
    ⊎ IsHeldBy "dlt-1" "ref-1"
        (claim_case settings alias_key unfinished storage_key [] "dlt-1" "ref-1" 100 empty).1.claims
claim_case-holds_example =
    claim_case-holds settings alias_key unfinished storage_key [] "dlt-1" "ref-1" 100 empty refl
      wins

deliver-one_winner_example :
    (c : Claim) × (cs : List Claim) × (last : ClaimStore) × (deliver settings alias_key unfinished
        storage_key [] "dlt-1"
        (first ∷ again)
        empty
      ≡ (c ∷ cs, last))
    × (c ≡ result true fresh (some "ref-1"))
    × All (λ x. x ≡ result false duplicate (some "ref-1")) cs
    × (holder_of settings alias_key unfinished storage_key [] "dlt-1" last ≡ some "ref-1")
deliver-one_winner_example =
    deliver-one_winner settings alias_key unfinished storage_key [] "dlt-1" [] (calm []) first again
      refl refl refl
      ((apart "ref-1" "ref-2" refl, omega arith), ((apart "ref-1" "ref-3" refl, omega arith), tt))
  where
    apart : (a b : String) → (a == b) ≡ false → a ≢ b
    apart a b h e = cc (h, (eq_iff a b).1 e)
