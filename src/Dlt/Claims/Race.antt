-- ===== src/Dlt/Claims/Race.antt =====
-- Deliveries of one record that follow each other (src/dlt/claims.py).
use agentic_resident_crm.Prelude.{
  ℕ, ◌-◌, ◌≤◌, true, false, String, List, [], ◌∷◌, Option, none, some, ltb, ◌==◌, string_eq, All,
  lookup, insert, ◌≡◌, ◌≢◌, inl, inr, refl, ◌∙◌, if_on, arith, eq_iff, Bool-cases,
}
use agentic_resident_crm.Storage.{Disk, Answer, answered, load, calm}
use agentic_resident_crm.Storage.Laws.{
  create_json-calm, load-calm, create_json-fresh, lookup-insert_same,
}
use agentic_resident_crm.Dlt.Findings.{truthy}
use agentic_resident_crm.Dlt.Claims.{
  ClaimDoc, Alias, Claim, ClaimStore, ClaimSettings, result, holder_finished, record_alias,
  claim_doc, contest, claim_loaded, claim_created, claim, failing_open, claim_case, duplicate,
  holder_of, holder_read, fresh,
}
use agentic_resident_crm.Dlt.Claims.Holder.{claim_case-enabled}

-- A delivery of a case.
pub record Delivery : Type 0 where
  pub ref_id : String
  pub at : ℕ

-- Another delivery, while the claim of `holder` is young.
abbrev pub IsRival : ClaimSettings → String → ℕ → Delivery → Type 0
IsRival settings holder since d = (holder ≢ d.ref_id) × (d.at - since ≤ settings.claim_ttl)

module _ (settings : ClaimSettings) (alias_key : String → String → String)
    (terminal_status : String → Answer (Option String)) (storage_key : String → String → String)
    (terminal_statuses : List String) (case_id : String) where
  -- The answers to deliveries that follow each other.
  unfoldable pub deliver : List Delivery → ClaimStore → List Claim × ClaimStore
  deliver [] store = ([], store)
  deliver (d ∷ ds) store =
      let (c, after) =
        claim_case settings alias_key terminal_status storage_key terminal_statuses case_id d.ref_id
          d.at store in
      let (cs, last) = deliver ds after in (c ∷ cs, last)

  contest-loses :
      (store : ClaimStore) (holder : String) (d : ClaimDoc) (since : ℕ) (rival : Delivery)
      → d.ref_id ≡ some holder
      → d.claimed_at ≡ some since
      → truthy (some holder) ≡ true
      → IsRival settings holder since rival
      → contest settings alias_key terminal_status storage_key terminal_statuses case_id
          rival.ref_id rival.at
          (some d)
          store
        ≡ (answered (result false duplicate (some holder)), store)
  unfolding contest
  contest-loses store holder d since rival held claimed named (other, young) = rw held (
      rw claimed (
        rw (show_other)
          (elim (Bool-cases (
            holder_finished settings alias_key terminal_status storage_key terminal_statuses
              (some holder) case_id)) [
                | inl done ↦ rw done refl
                | inr unfinished ↦ rw unfinished (rw named (rw show_young refl))
              ])))
    where
      show_other : (holder == rival.ref_id) ≡ false
      show_other = ground (arith, eq_iff holder rival.ref_id)

      show_young : ltb settings.claim_ttl (rival.at - since) ≡ false
      show_young = ground arith

  rival-loses :
      (docs : List (String × ClaimDoc)) (aliases : Disk Alias) (holder : String) (d : ClaimDoc)
      (since : ℕ) (rival : Delivery)
      → settings.claims_enabled ≡ true
      → lookup case_id docs ≡ some d
      → d.ref_id ≡ some holder
      → d.claimed_at ≡ some since
      → truthy (some holder) ≡ true
      → IsRival settings holder since rival
      → claim_case settings alias_key terminal_status storage_key terminal_statuses case_id
          rival.ref_id rival.at
          (record { claims = calm docs; aliases = aliases })
        ≡ (
          result false duplicate (some holder),
          record {
            claims = calm docs;
            aliases =
                record_alias settings alias_key terminal_status storage_key terminal_statuses
                  case_id rival.ref_id rival.at aliases;
          },
        )
  unfolding claim claim_created claim_loaded failing_open
  rival-loses docs aliases holder d since rival enabled here held claimed named rivals =
      claim_case-enabled settings alias_key terminal_status storage_key terminal_statuses case_id
        rival.ref_id rival.at (record { claims = calm docs; aliases = aliases }) enabled
      ∙ (rw (create_json-calm case_id (claim_doc case_id rival.ref_id rival.at) d docs here) (
          rw (load-calm case_id docs) (
            rw here (
              rw
                (contest-loses
                  (record {
                    claims = calm docs;
                    aliases =
                        record_alias settings alias_key terminal_status storage_key
                          terminal_statuses case_id rival.ref_id rival.at aliases;
                  })
                  holder d since rival held claimed named rivals)
                refl))))

  rivals-lose :
      (rivals : List Delivery) (docs : List (String × ClaimDoc)) (aliases : Disk Alias)
      (holder : String) (d : ClaimDoc) (since : ℕ)
      → settings.claims_enabled ≡ true
      → lookup case_id docs ≡ some d
      → d.ref_id ≡ some holder
      → d.claimed_at ≡ some since
      → truthy (some holder) ≡ true
      → All (IsRival settings holder since) rivals
      → All
          (λ c. c ≡ result false duplicate (some holder))
          (deliver rivals (record { claims = calm docs; aliases = aliases })).0
        × ((deliver rivals (record { claims = calm docs; aliases = aliases })).1.claims ≡ calm docs)
  unfolding deliver
  rivals-lose [] docs aliases holder d since enabled here held claimed named all = (tt, refl)
  rivals-lose (r ∷ rs) docs aliases holder d since enabled here held claimed named (first, later) =
      rw (rival-loses docs aliases holder d since r enabled here held claimed named first) (
        let (answers, kept) =
          rivals-lose rs docs
            (record_alias settings alias_key terminal_status storage_key terminal_statuses case_id
              r.ref_id r.at aliases)
            holder d since enabled here held claimed named later in
        ((refl, answers), kept))

-- Of the deliveries of one new record only the first is analysed: it wins, and every delivery
-- under another refId that follows it loses as a duplicate of it and leaves the claims as they
-- are, whatever the order, and `holder_of` still answers the first one. Claims are on, the store
-- does not fail, the record had no claim, the first refId is not empty, the others come no later
-- than the claim's time to live after it, and what the case store says of a case stays the same.
pub deliver-one_winner :
    (settings : ClaimSettings) (alias_key : String → String → String)
    (terminal_status : String → Answer (Option String)) (storage_key : String → String → String)
    (terminal_statuses : List String) (case_id : String) (docs : List (String × ClaimDoc))
    (aliases : Disk Alias) (first : Delivery) (rivals : List Delivery)
    → settings.claims_enabled ≡ true
    → lookup case_id docs ≡ none
    → truthy (some first.ref_id) ≡ true
    → All (IsRival settings first.ref_id first.at) rivals
    → (c : Claim) × (cs : List Claim) × (last : ClaimStore) × (deliver settings alias_key
          terminal_status storage_key terminal_statuses case_id
          (first ∷ rivals)
          (record { claims = calm docs; aliases = aliases })
        ≡ (c ∷ cs, last))
      × (c ≡ result true fresh (some first.ref_id))
      × All (λ x. x ≡ result false duplicate (some first.ref_id)) cs
      × (holder_of settings alias_key terminal_status storage_key terminal_statuses case_id last
          ≡ some first.ref_id)
unfolding deliver claim claim_created failing_open holder_of
deliver-one_winner settings alias_key terminal_status storage_key terminal_statuses case_id docs
      aliases first rivals enabled absent named all =
    (
      result true fresh (some first.ref_id),
      (deliver' first_after).0,
      (deliver' first_after).1,
      rw wins refl,
      refl,
      losers.0,
      held,
    )
  where
    made : List (String × ClaimDoc)
    made = insert case_id (claim_doc case_id first.ref_id first.at) docs

    first_after : ClaimStore
    first_after = record {
      claims = calm made;
      aliases =
          record_alias settings alias_key terminal_status storage_key terminal_statuses case_id
            first.ref_id first.at aliases;
    }

    deliver' : ClaimStore → List Claim × ClaimStore
    deliver' store =
        deliver settings alias_key terminal_status storage_key terminal_statuses case_id rivals
          store

    wins :
        claim_case settings alias_key terminal_status storage_key terminal_statuses case_id
          first.ref_id first.at
          (record { claims = calm docs; aliases = aliases })
        ≡ (result true fresh (some first.ref_id), first_after)
    wins =
        claim_case-enabled settings alias_key terminal_status storage_key terminal_statuses case_id
          first.ref_id first.at (record { claims = calm docs; aliases = aliases }) enabled
        ∙ rw (create_json-fresh case_id (claim_doc case_id first.ref_id first.at) docs absent) refl

    losers :
        All (λ c. c ≡ result false duplicate (some first.ref_id)) (deliver' first_after).0
        × ((deliver' first_after).1.claims ≡ calm made)
    losers =
        rivals-lose settings alias_key terminal_status storage_key terminal_statuses case_id rivals
          made (first_after.aliases) first.ref_id (claim_doc case_id first.ref_id first.at) first.at
          enabled (lookup-insert_same case_id (claim_doc case_id first.ref_id first.at) docs) refl
          refl named all

    held :
        holder_of settings alias_key terminal_status storage_key terminal_statuses case_id
          (deliver' first_after).1
        ≡ some first.ref_id
    held = rw (losers.1) (
        if_on settings.claims_enabled (holder_read (load case_id (calm made)).0) none enabled
        ∙ rw (load-calm case_id made)
            (rw (lookup-insert_same case_id (claim_doc case_id first.ref_id first.at) docs) refl))
