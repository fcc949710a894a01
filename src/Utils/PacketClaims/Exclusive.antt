-- ===== src/Utils/PacketClaims/Exclusive.antt =====
-- Who is to investigate a packet (src/utils/packet_claims.py).
use agentic_resident_crm.Prelude.{
  ℕ, ◌-◌, ◌≤◌, true, false, String, List, [], ◌∷◌, Option, none, some, ltb, All, lookup, insert,
  ◌≡◌, refl, ◌∙◌, if_on, ap, arith, Bool-cases, inl, inr,
}
use agentic_resident_crm.Storage.{Disk, Answer, answered, calm}
use agentic_resident_crm.Storage.Laws.{
  create_json-fresh, create_json-calm, load-calm, lookup-insert_same,
}
use agentic_resident_crm.Utils.PacketClaims.{
  ClaimDoc, Claim, Casebook, ClaimSettings, is_finished, abandoned_at, was_abandoned, claimed_at_of,
  result, claim_doc, Step, settled, finish, contest, claim_loaded, claim_created, look,
  failing_open, claim_packet, fresh, duplicate, finished, disabled,
}

module _ (settings : ClaimSettings) (terminal : Answer (Option String))
    (casebook : Answer (Option Casebook)) where
  claim_packet-enabled :
      (event_id : String) (now : ℕ) (disk : Disk ClaimDoc)
      → settings.claims_enabled ≡ true
      → let (step, after) = look settings terminal casebook event_id now disk in
        claim_packet settings terminal casebook event_id now disk ≡ finish event_id step after
  unfolding claim_packet
  claim_packet-enabled event_id now disk enabled =
      if_on settings.claims_enabled _ (result true disabled none, disk) enabled

  -- The answers to deliveries of one packet each of which ends before the next begins.
  unfoldable pub deliver : String → List ℕ → Disk ClaimDoc → List Claim × Disk ClaimDoc
  deliver event_id [] disk = ([], disk)
  deliver event_id (now ∷ times) disk =
      let (c, after) = claim_packet settings terminal casebook event_id now disk in
      let (cs, last) = deliver event_id times after in (c ∷ cs, last)

  -- Deliveries that all read the claim before any of them writes.
  unfoldable pub look_all : String → List ℕ → Disk ClaimDoc → List Step × Disk ClaimDoc
  look_all event_id [] disk = ([], disk)
  look_all event_id (now ∷ times) disk =
      let (step, after) = look settings terminal casebook event_id now disk in
      let (steps, last) = look_all event_id times after in (step ∷ steps, last)

  pub look-held :
      (event_id : String) (now : ℕ) (d : ClaimDoc) (docs : List (String × ClaimDoc))
      → lookup event_id docs ≡ some d
      → look settings terminal casebook event_id now (calm docs)
        ≡ (contest settings terminal casebook event_id now (some d), calm docs)
  unfolding look claim_created claim_loaded
  look-held event_id now d docs here =
      rw (create_json-calm event_id (claim_doc event_id now false none) d docs here)
        (rw (load-calm event_id docs) (rw here refl))

  claim_packet-held :
      (event_id : String) (now : ℕ) (d : ClaimDoc) (docs : List (String × ClaimDoc))
      → settings.claims_enabled ≡ true
      → lookup event_id docs ≡ some d
      → claim_packet settings terminal casebook event_id now (calm docs)
        ≡ finish event_id (contest settings terminal casebook event_id now (some d)) (calm docs)
  claim_packet-held event_id now d docs enabled here =
      claim_packet-enabled event_id now (calm docs) enabled
      ∙ ap (λ (l : Step × Disk ClaimDoc). finish event_id l.0 l.1)
          (look-held event_id now d docs here)

  contest-loses :
      (event_id : String) (now since : ℕ) (d : ClaimDoc)
      → claimed_at_of (some d) ≡ since
      → was_abandoned (abandoned_at casebook) since ≡ false
      → now - since ≤ settings.claim_ttl
      → (c : Claim) × (c.won ≡ false)
        × (contest settings terminal casebook event_id now (some d) ≡ settled (answered c))
  unfolding contest
  contest-loses event_id now since d claimed live young = elim (Bool-cases (is_finished terminal)) [
    | inl done ↦
        (result false finished (some (now - since)), refl, rw claimed (rw live (rw done refl)))
    | inr running ↦ (
      result false duplicate (some (now - since)),
      refl,
      rw claimed (rw live (rw running (rw show_young refl))),
    )
  ]
    where
      show_young : ltb settings.claim_ttl (now - since) ≡ false
      show_young = ground arith

  pub rivals-lose :
      (event_id : String) (times : List ℕ) (since : ℕ) (d : ClaimDoc)
      (docs : List (String × ClaimDoc))
      → settings.claims_enabled ≡ true
      → lookup event_id docs ≡ some d
      → claimed_at_of (some d) ≡ since
      → was_abandoned (abandoned_at casebook) since ≡ false
      → All (λ now. now - since ≤ settings.claim_ttl) times
      → All (λ c. c.won ≡ false) (deliver event_id times (calm docs)).0
        × ((deliver event_id times (calm docs)).1 ≡ calm docs)
  unfolding deliver finish failing_open
  rivals-lose event_id [] since d docs enabled here claimed live young = (tt, refl)
  rivals-lose event_id (now ∷ times) since d docs enabled here claimed live (young, later) =
      let (c, lost, e) = contest-loses event_id now since d claimed live young in
      let (answers, kept) =
        rivals-lose event_id times since d docs enabled here claimed live later in
      rw
        (claim_packet-held event_id now d docs enabled here
          ∙ ap (λ (s : Step). finish event_id s (calm docs)) e)
        ((lost, answers), kept)

-- Of the deliveries of one new packet only the first is investigated: it wins, and all that follow
-- it lose and leave its claim in place. Claims are on, the store does not fail, the packet had no
-- claim, the casebook stays the same and does not say that it was abandoned at or after the first
-- delivery, and the others come no later than the claim's time to live after it.
pub deliver-first_wins :
    (settings : ClaimSettings) (terminal : Answer (Option String))
    (casebook : Answer (Option Casebook)) (event_id : String) (docs : List (String × ClaimDoc))
    (now : ℕ) (times : List ℕ)
    → settings.claims_enabled ≡ true
    → lookup event_id docs ≡ none
    → was_abandoned (abandoned_at casebook) now ≡ false
    → All (λ t. t - now ≤ settings.claim_ttl) times
    → (c : Claim) × (cs : List Claim) × (deliver settings terminal casebook event_id
          (now ∷ times)
          (calm docs)
        ≡ (c ∷ cs, calm (insert event_id (claim_doc event_id now false none) docs)))
      × (c ≡ result true fresh none)
      × All (λ x. x.won ≡ false) cs
unfolding deliver look claim_created finish failing_open
deliver-first_wins settings terminal casebook event_id docs now times enabled absent live young =
    (result true fresh none, rest.0, rw wins (rw (losers.1) refl), refl, losers.0)
  where
    doc : ClaimDoc
    doc = claim_doc event_id now false none

    made : List (String × ClaimDoc)
    made = insert event_id doc docs

    rest : List Claim × Disk ClaimDoc
    rest = deliver settings terminal casebook event_id times (calm made)

    wins :
        claim_packet settings terminal casebook event_id now (calm docs)
        ≡ (result true fresh none, calm made)
    wins =
        claim_packet-enabled settings terminal casebook event_id now (calm docs) enabled
        ∙ rw (create_json-fresh event_id doc docs absent) refl

    losers : All (λ c. c.won ≡ false) rest.0 × (rest.1 ≡ calm made)
    losers =
        rivals-lose settings terminal casebook event_id times now doc made enabled
          (lookup-insert_same event_id doc docs) refl live young
