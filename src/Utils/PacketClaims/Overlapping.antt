-- ===== src/Utils/PacketClaims/Overlapping.antt =====
-- Deliveries that read a claim before another of them overwrites it (src/utils/packet_claims.py).
use agentic_resident_crm.Prelude.{
  ℕ, ◌-◌, ◌≤◌, ◌<◌, true, false, String, List, [], ◌∷◌, Option, none, some, leb, All, lookup,
  insert, ◌≡◌, refl, ◌∙◌, ap, sym, subst, map, length, suc, arith,
}
use agentic_resident_crm.Storage.{Disk, Answer, calm}
use agentic_resident_crm.Storage.Laws.{lookup-insert_same, save-calm}
use agentic_resident_crm.Utils.PacketClaims.{
  ClaimDoc, Claim, Casebook, ClaimSettings, abandoned_at, was_abandoned, claimed_at_of, claim_doc,
  Step, takes_over, finish, contest,
}
use agentic_resident_crm.Utils.PacketClaims.Exclusive.{deliver, look_all, look-held, rivals-lose}

-- The time of the last of some deliveries.
abbrev pub last_of : ℕ → List ℕ → ℕ
last_of now [] = now
last_of now (t ∷ times) = last_of t times

-- What deliveries come to whose overwrites are made in this order.
unfoldable pub finish_all : String → List Step → Disk ClaimDoc → List Claim × Disk ClaimDoc
finish_all event_id [] disk = ([], disk)
finish_all event_id (s ∷ steps) disk =
    let (c, after) = finish event_id s disk in
    let (cs, last) = finish_all event_id steps after in (c ∷ cs, last)

take_overs : String → ℕ → List ℕ → List Step
take_overs event_id since times =
    map (λ t. takes_over (t - since) (claim_doc event_id t true none)) times

-- What overwrites come to that the store all makes: the last of them stays.
record IsTaken (event_id : String) (last count : ℕ) (made : List Claim × Disk ClaimDoc)
    : Type 0 where
  docs : List (String × ClaimDoc)
  left : made.1 ≡ calm docs
  held : lookup event_id docs ≡ some (claim_doc event_id last true none)
  won : All (λ c. c.won ≡ true) made.0
  counted : length made.0 ≡ count

finish_all-IsTaken :
    (event_id : String) (since now : ℕ) (early : List ℕ) (docs : List (String × ClaimDoc))
    → IsTaken event_id
        (last_of now early)
        (suc (length early))
        (finish_all event_id (take_overs event_id since (now ∷ early)) (calm docs))
unfolding finish_all take_overs finish
finish_all-IsTaken event_id since now [] docs =
    rw (save-calm event_id (claim_doc event_id now true none) docs) (record {
      docs = insert event_id (claim_doc event_id now true none) docs;
      left = refl;
      held = lookup-insert_same event_id (claim_doc event_id now true none) docs;
      won = (refl, tt);
      counted = refl;
    })
finish_all-IsTaken event_id since now (t ∷ early) docs =
    let made = insert event_id (claim_doc event_id now true none) docs in
    let rest = finish_all-IsTaken event_id since t early made in
    rw (save-calm event_id (claim_doc event_id now true none) docs) (record {
      docs = rest.docs;
      left = rest.left;
      held = rest.held;
      won = (refl, rest.won);
      counted = ap suc rest.counted;
    })

module _ (settings : ClaimSettings) (terminal : Answer (Option String))
    (casebook : Answer (Option Casebook)) where
  -- Deliveries with claims on: some that all read the claim before the first of them writes and
  -- that write in this order, then others, each of which ends before the next begins.
  unfoldable pub overlapping :
      String → List ℕ → List ℕ → Disk ClaimDoc → List Claim × (List Claim × Disk ClaimDoc)
  overlapping event_id racers later disk =
      let (steps, read) = look_all settings terminal casebook event_id racers disk in
      let (claims, written) = finish_all event_id steps read in
      (claims, deliver settings terminal casebook event_id later written)

  look_all-abandoned :
      (event_id : String) (docs : List (String × ClaimDoc)) (old : ClaimDoc) (left : ℕ)
      (times : List ℕ)
      → lookup event_id docs ≡ some old
      → abandoned_at casebook ≡ some left
      → claimed_at_of (some old) ≤ left
      → look_all settings terminal casebook event_id times (calm docs)
        ≡ (take_overs event_id (claimed_at_of (some old)) times, calm docs)
  unfolding look_all contest take_overs
  look_all-abandoned event_id docs old left [] here stopped before = refl
  look_all-abandoned event_id docs old left (t ∷ times) here stopped before =
      rw (look-held settings terminal casebook event_id t old docs here) (
        rw (look_all-abandoned event_id docs old left times here stopped before)
          (rw (stopped, show_abandoned) refl))
    where
      show_abandoned : leb (claimed_at_of (some old)) left ≡ true
      show_abandoned = ground arith

-- A claim whose run was abandoned is handed over at once, whatever its age: to every delivery that
-- reads it before the first of them writes its own claim, and to none that comes after they all
-- wrote; these lose and leave the last writer's claim in place. Claims are on, the store does not
-- fail, the casebook stays the same, the claim was made no later than the run was abandoned, the
-- last writer comes later than that, and the later deliveries follow one another and come no later
-- than the claim's time to live after it.
pub overlapping-handed_over :
    (settings : ClaimSettings) (terminal : Answer (Option String))
    (casebook : Answer (Option Casebook)) (event_id : String) (docs : List (String × ClaimDoc))
    (old : ClaimDoc) (left now : ℕ) (early later : List ℕ)
    → settings.claims_enabled ≡ true
    → lookup event_id docs ≡ some old
    → abandoned_at casebook ≡ some left
    → claimed_at_of (some old) ≤ left
    → left < last_of now early
    → All (λ t. t - last_of now early ≤ settings.claim_ttl) later
    → let (racers, (others, after)) =
        overlapping settings terminal casebook event_id (now ∷ early) later (calm docs) in
      All (λ c. c.won ≡ true) racers
      × (length racers ≡ suc (length early))
      × All (λ c. c.won ≡ false) others
      × (lookup event_id after.docs ≡ some (claim_doc event_id (last_of now early) true none))
unfolding overlapping
overlapping-handed_over settings terminal casebook event_id docs old left now early later enabled
      here stopped before after young =
    rw
      (look_all-abandoned settings terminal casebook event_id docs old left (now ∷ early) here
        stopped before)
      (
        taken.won,
        taken.counted,
        subst
            (λ (d : Disk ClaimDoc).
              All (λ c. c.won ≡ false) (deliver settings terminal casebook event_id later d).0)
            (sym taken.left) losers.0,
        subst
            (λ (d : Disk ClaimDoc).
              lookup event_id (deliver settings terminal casebook event_id later d).1.docs
              ≡ some doc)
            (sym taken.left)
            (ap (λ (d : Disk ClaimDoc). lookup event_id d.docs) losers.1 ∙ taken.held),
      )
  where
    doc : ClaimDoc
    doc = claim_doc event_id (last_of now early) true none

    taken : IsTaken event_id (last_of now early) (suc (length early)) (
        finish_all event_id
          (take_overs event_id (claimed_at_of (some old)) (now ∷ early))
          (calm docs))
    taken = finish_all-IsTaken event_id (claimed_at_of (some old)) now early docs

    show_live : was_abandoned (abandoned_at casebook) (last_of now early) ≡ false
    show_live = rw stopped (ground arith)

    losers :
        All
          (λ c. c.won ≡ false)
          (deliver settings terminal casebook event_id later (calm taken.docs)).0
        × ((deliver settings terminal casebook event_id later (calm taken.docs)).1
            ≡ calm taken.docs)
    losers =
        rivals-lose settings terminal casebook event_id later (last_of now early) doc taken.docs
          enabled taken.held refl show_live young
