-- ===== src/Dlt/Claims/Holder.antt =====
-- Who holds the claim on a dead-letter record (src/dlt/claims.py).
use agentic_resident_crm.Prelude.{
  ℕ, ◌-◌, Bool, true, false, not, ◌||◌, String, List, Option, none, some, ltb, string_eq, lookup,
  insert, lookup-insert, ◌≡◌, ◌⊎◌, inl, inr, refl, if_on, arith, eq_iff, Bool-cases,
}
use agentic_resident_crm.Storage.{Disk, Answer, answered, raised, load, save, create_json}
use agentic_resident_crm.Storage.Laws.{create_json-won, load-docs, load-answered, save-saved}
use agentic_resident_crm.Dlt.Findings.{truthy}
use agentic_resident_crm.Dlt.Claims.{
  ClaimDoc, Alias, Claim, ClaimStore, ClaimSettings, result, is_ref, holder_of_doc, claimed_at_of,
  holder_finished, record_alias, claim_doc, taken_over, contest, claim_loaded, claim_created, claim,
  failing_open, claim_case, error, disabled,
}

-- The claim of the case is in the store, under this refId.
abbrev pub IsHeldBy : String → String → Disk ClaimDoc → Type 0
IsHeldBy case_id ref claims =
    (d : ClaimDoc) × (lookup case_id claims.docs ≡ some d) × (d.ref_id ≡ some ref)

-- Who wins holds the claim, or was let through by an error.
abbrev HoldsIfWon : String → String → Claim × ClaimStore → Type 0
HoldsIfWon case_id ref (c, store) =
    c.won ≡ true → (c.outcome ≡ error) ⊎ IsHeldBy case_id ref store.claims

abbrev pub opened : Answer Claim × ClaimStore → Claim × ClaimStore
opened (answer, store) = (failing_open answer, store)

taken_over-holds :
    (case_id ref : String) (doc : ClaimDoc) (claims : Disk ClaimDoc) (aliases : Disk Alias)
    (r : Answer (Unit {0}) × Disk ClaimDoc)
    → doc.ref_id ≡ some ref
    → (r.0 ≡ answered tt → r.1.docs ≡ insert case_id doc claims.docs)
    → HoldsIfWon case_id ref (opened (taken_over ref r aliases))
unfolding taken_over failing_open
taken_over-holds case_id ref doc claims aliases (answered tt, after) own saved won = inr (
  doc,
  rw (saved refl)
      (ground (arith, eq_iff case_id case_id, lookup-insert case_id case_id doc claims.docs)),
  own,
)
taken_over-holds case_id ref doc claims aliases (raised, after) own saved won = inl refl

is_ref-eq : (o : Option String) (ref : String) → is_ref o ref ≡ true → o ≡ some ref
is_ref-eq none ref h = cc
is_ref-eq (some x) ref h = ground (arith, eq_iff x ref)

named-IsHeldBy :
    (case_id ref : String) (existing : Option ClaimDoc) (claims : Disk ClaimDoc)
    → lookup case_id claims.docs ≡ existing
    → holder_of_doc existing ≡ some ref
    → IsHeldBy case_id ref claims
named-IsHeldBy case_id ref none claims here named = cc
named-IsHeldBy case_id ref (some d) claims here named = (d, here, named)

module _ (settings : ClaimSettings) (alias_key : String → String → String)
    (terminal_status : String → Answer (Option String)) (storage_key : String → String → String)
    (terminal_statuses : List String) (case_id ref : String) (now : ℕ) where
  contest-holds :
      (existing : Option ClaimDoc) (store : ClaimStore)
      → lookup case_id store.claims.docs ≡ existing
      → HoldsIfWon case_id ref (
          opened (
            contest settings alias_key terminal_status storage_key terminal_statuses case_id ref now
              existing store))
  unfolding contest failing_open
  contest-holds existing store here = elim (Bool-cases (is_ref (holder_of_doc existing) ref)) [
    | inl own ↦ rw own (λ won. inr (
        named-IsHeldBy case_id ref existing store.claims here
          (is_ref-eq (holder_of_doc existing) ref own)))
    | inr foreign ↦
        rw foreign
          (elim (Bool-cases (
            holder_finished settings alias_key terminal_status storage_key terminal_statuses
              (holder_of_doc existing) case_id)) [
                | inl done ↦ rw done (λ won. cc)
                | inr unfinished ↦
                    rw unfinished
                      (elim (Bool-cases (
                        not (truthy (holder_of_doc existing))
                        || ltb settings.claim_ttl (now - claimed_at_of existing))) [
                          | inl overdue ↦ rw overdue (
                              taken_over-holds case_id ref taking store.claims store.aliases
                                (save case_id taking store.claims) refl
                                (save-saved case_id taking store.claims))
                          | inr young ↦ rw young (λ won. cc)
                        ])
              ])
  ]
    where
      taking : ClaimDoc
      taking = record {
        case_id = case_id;
        ref_id = some ref;
        claimed_at = some now;
        reclaimed_from = holder_of_doc existing;
        reclaimed_after = some (now - claimed_at_of existing);
      }

  claim_loaded-holds :
      (r : Answer (Option ClaimDoc) × Disk ClaimDoc) (aliases : Disk Alias)
      → ((o : Option ClaimDoc) → r.0 ≡ answered o → lookup case_id r.1.docs ≡ o)
      → HoldsIfWon case_id ref (
          opened (
            claim_loaded settings alias_key terminal_status storage_key terminal_statuses case_id
              ref now r aliases))
  unfolding claim_loaded failing_open
  claim_loaded-holds (raised, claims) aliases here = λ won. inl refl
  claim_loaded-holds (answered existing, claims) aliases here =
      contest-holds existing
        (record {
          claims = claims;
          aliases =
              record_alias settings alias_key terminal_status storage_key terminal_statuses case_id
                ref now aliases;
        })
        (here existing refl)

  claim_created-holds :
      (r : Answer Bool × Disk ClaimDoc) (aliases : Disk Alias)
      → (r.0 ≡ answered true → lookup case_id r.1.docs ≡ some (claim_doc case_id ref now))
      → HoldsIfWon case_id ref (
          opened (
            claim_created settings alias_key terminal_status storage_key terminal_statuses case_id
              ref now r aliases))
  unfolding claim_created failing_open
  claim_created-holds (answered true, claims) aliases made =
      λ won. inr (claim_doc case_id ref now, made refl, refl)
  claim_created-holds (answered false, claims) aliases made =
      claim_loaded-holds (load case_id claims) aliases
        (λ o e. rw (load-docs case_id claims) (load-answered case_id o claims e))
  claim_created-holds (raised, claims) aliases made = λ won. inl refl

pub claim_case-enabled :
    (settings : ClaimSettings) (alias_key : String → String → String)
    (terminal_status : String → Answer (Option String)) (storage_key : String → String → String)
    (terminal_statuses : List String) (case_id ref : String) (now : ℕ) (store : ClaimStore)
    → settings.claims_enabled ≡ true
    → claim_case settings alias_key terminal_status storage_key terminal_statuses case_id ref now
        store
      ≡ opened (
          claim settings alias_key terminal_status storage_key terminal_statuses case_id ref now
            store)
unfolding claim_case
claim_case-enabled settings alias_key terminal_status storage_key terminal_statuses case_id ref now
      store enabled =
    if_on settings.claims_enabled
      (opened (
        claim settings alias_key terminal_status storage_key terminal_statuses case_id ref now
          store))
      (result true disabled none, store) enabled

-- A delivery that is told that it won holds the claim of its case in the store, unless an error
-- let it through. Claims are on; any call of the store may raise, and a write that raises may have
-- been applied.
pub claim_case-holds :
    (settings : ClaimSettings) (alias_key : String → String → String)
    (terminal_status : String → Answer (Option String)) (storage_key : String → String → String)
    (terminal_statuses : List String) (case_id ref : String) (now : ℕ) (store : ClaimStore)
    → settings.claims_enabled ≡ true
    → (claim_case settings alias_key terminal_status storage_key terminal_statuses case_id ref now
        store).0.won
      ≡ true
    → ((claim_case settings alias_key terminal_status storage_key terminal_statuses case_id ref now
          store).0.outcome
        ≡ error)
      ⊎ IsHeldBy case_id ref
          (claim_case settings alias_key terminal_status storage_key terminal_statuses case_id ref
            now store).1.claims
unfolding claim
claim_case-holds settings alias_key terminal_status storage_key terminal_statuses case_id ref now
      store enabled =
    rw
      (claim_case-enabled settings alias_key terminal_status storage_key terminal_statuses case_id
        ref now store enabled)
      (claim_created-holds settings alias_key terminal_status storage_key terminal_statuses case_id
        ref now (create_json case_id (claim_doc case_id ref now) store.claims) store.aliases
        (λ e. (create_json-won case_id (claim_doc case_id ref now) store.claims e).1))
