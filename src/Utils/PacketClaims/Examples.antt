-- ===== src/Utils/PacketClaims/Examples.antt =====
-- The packet claims of src/utils/packet_claims.py at sample deliveries.
use agentic_resident_crm.Prelude.{
  true, false, List, [], ◌∷◌, none, some, All, insert, lookup, length, ◌≡◌, refl, arith,
}
use agentic_resident_crm.Storage.{answered, calm}
use agentic_resident_crm.Utils.PacketClaims.{
  Claim, Casebook, ClaimDoc, ClaimSettings, claim_doc, result, fresh, abandoned_at,
}
use agentic_resident_crm.Utils.PacketClaims.Overlapping.{overlapping, overlapping-handed_over}
use agentic_resident_crm.Utils.PacketClaims.Exclusive.{deliver, deliver-first_wins}

abbrev settings : ClaimSettings
settings = record { claims_enabled = true; claim_ttl = 600 }

deliver-first_wins_example :
    (c : Claim) × (cs : List Claim) × (deliver settings
        (answered none)
        (answered none)
        "ev-1"
        (100 ∷ 101 ∷ 400 ∷ [])
        (calm [])
      ≡ (c ∷ cs, calm (insert "ev-1" (claim_doc "ev-1" 100 false none) [])))
    × (c ≡ result true fresh none)
    × All (λ x. x.won ≡ false) cs
unfolding abandoned_at
deliver-first_wins_example =
    deliver-first_wins settings (answered none) (answered none) "ev-1" [] 100 (101 ∷ 400 ∷ []) refl
      refl refl (omega arith, (omega arith, tt))

abbrev stopped : Casebook
stopped = record { status = some "FAILED_SHUTDOWN"; abandoned_at = some 120 }

abbrev old_claim : ClaimDoc
old_claim = claim_doc "ev-1" 100 false none

-- Two deliveries that overlap both take the claim over; one that follows does not.
overlapping-handed_over_example :
    let (racers, (others, after)) =
      overlapping settings
        (answered none)
        (answered (some stopped))
        "ev-1"
        (130 ∷ 131 ∷ [])
        (140 ∷ [])
        (calm (("ev-1", old_claim) ∷ [])) in
    All (λ c. c.won ≡ true) racers
    × (length racers ≡ 2)
    × All (λ c. c.won ≡ false) others
    × (lookup "ev-1" after.docs ≡ some (claim_doc "ev-1" 131 true none))
unfolding abandoned_at
overlapping-handed_over_example =
    overlapping-handed_over settings (answered none) (answered (some stopped)) "ev-1"
      (("ev-1", old_claim) ∷ []) old_claim 120 130 (131 ∷ []) (140 ∷ []) refl refl refl
      (omega arith) (omega arith) (omega arith, tt)
