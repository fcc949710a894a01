-- ===== src/Storage/Laws.antt =====
-- What the calls of a store leave as it was.
use agentic_resident_crm.Prelude.{
  true, false, String, List, Option, none, some, lookup, insert, ◌≡◌, ◌⊎◌, inl, inr, refl, arith,
  lookup-insert, eq_iff, string_eq,
}
use agentic_resident_crm.Storage.{
  Fault, fine, lost, late, Disk, answered, load_by, load, save_by, save, create_absent,
  create_present, create_by, create_json, list_by, list_events, next_fault, spent, calm,
}

module _ {D : Type 0} where
  load_by-docs :
      (f : Fault) (key : String) (disk : Disk D) → (load_by f key disk).1.docs ≡ disk.docs
  unfolding load_by
  load_by-docs fine key disk = refl
  load_by-docs lost key disk = refl
  load_by-docs late key disk = refl

  pub load-docs : (key : String) (disk : Disk D) → (load key disk).1.docs ≡ disk.docs
  unfolding load
  load-docs key disk = load_by-docs (next_fault disk.faults) key (spent disk)

  list_by-docs : (f : Fault) (disk : Disk D) → (list_by f disk).1.docs ≡ disk.docs
  unfolding list_by
  list_by-docs fine disk = refl
  list_by-docs lost disk = refl
  list_by-docs late disk = refl

  pub list_events-docs : (disk : Disk D) → (list_events disk).1.docs ≡ disk.docs
  unfolding list_events
  list_events-docs disk = list_by-docs (next_fault disk.faults) (spent disk)

  create_by-keeps :
      (o : Option D) (f : Fault) (key k : String) (doc d : D) (disk : Disk D)
      → lookup key disk.docs ≡ o
      → lookup k disk.docs ≡ some d
      → lookup k (create_by o f key doc disk).1.docs ≡ some d
  unfolding create_by
  create_by-keeps none fine key k doc d disk e h =
      ground (arith, eq_iff key k, lookup-insert key k doc disk.docs)
  create_by-keeps none lost key k doc d disk e h = h
  create_by-keeps none late key k doc d disk e h =
      ground (arith, eq_iff key k, lookup-insert key k doc disk.docs)
  create_by-keeps (some old) fine key k doc d disk e h = h
  create_by-keeps (some old) lost key k doc d disk e h = h
  create_by-keeps (some old) late key k doc d disk e h = h

  -- `create_json` never overwrites a document, whether or not it raises.
  pub create_json-keeps :
      (key k : String) (doc d : D) (disk : Disk D)
      → lookup k disk.docs ≡ some d
      → lookup k (create_json key doc disk).1.docs ≡ some d
  unfolding create_json
  create_json-keeps key k doc d disk h =
      create_by-keeps (lookup key disk.docs) (next_fault disk.faults) key k doc d (spent disk) refl
        h

  create_by-won :
      (o : Option D) (f : Fault) (key : String) (doc : D) (disk : Disk D)
      → (create_by o f key doc disk).0 ≡ answered true
      → (o ≡ none) × (lookup key (create_by o f key doc disk).1.docs ≡ some doc)
  unfolding create_by
  create_by-won none fine key doc disk h =
      (refl, ground (arith, eq_iff key key, lookup-insert key key doc disk.docs))
  create_by-won none lost key doc disk h = cc
  create_by-won none late key doc disk h = cc
  create_by-won (some old) fine key doc disk h = cc
  create_by-won (some old) lost key doc disk h = cc
  create_by-won (some old) late key doc disk h = cc

  -- Who is told that it created a document found none there, and its own is there now.
  pub create_json-won :
      (key : String) (doc : D) (disk : Disk D)
      → (create_json key doc disk).0 ≡ answered true
      → (lookup key disk.docs ≡ none) × (lookup key (create_json key doc disk).1.docs ≡ some doc)
  unfolding create_json
  create_json-won key doc disk h =
      create_by-won (lookup key disk.docs) (next_fault disk.faults) key doc (spent disk) h

  create_by-lost :
      (o : Option D) (f : Fault) (key : String) (doc : D) (disk : Disk D)
      → (create_by o f key doc disk).0 ≡ answered false
      → (old : D) × (o ≡ some old)
  unfolding create_by
  create_by-lost none fine key doc disk h = cc
  create_by-lost none lost key doc disk h = cc
  create_by-lost none late key doc disk h = cc
  create_by-lost (some old) f key doc disk h = (old, refl)

  -- Who is told that it did not create a document found one there.
  pub create_json-lost :
      (key : String) (doc : D) (disk : Disk D)
      → (create_json key doc disk).0 ≡ answered false
      → (old : D) × (lookup key disk.docs ≡ some old)
  unfolding create_json
  create_json-lost key doc disk h =
      create_by-lost (lookup key disk.docs) (next_fault disk.faults) key doc (spent disk) h

  save_by-saved :
      (f : Fault) (key : String) (doc : D) (disk : Disk D)
      → (save_by f key doc disk).0 ≡ answered tt
      → (save_by f key doc disk).1.docs ≡ insert key doc disk.docs
  unfolding save_by
  save_by-saved fine key doc disk h = refl
  save_by-saved lost key doc disk h = cc
  save_by-saved late key doc disk h = cc

  -- A write that is reported done is done.
  pub save-saved :
      (key : String) (doc : D) (disk : Disk D)
      → (save key doc disk).0 ≡ answered tt
      → (save key doc disk).1.docs ≡ insert key doc disk.docs
  unfolding save
  save-saved key doc disk h = save_by-saved (next_fault disk.faults) key doc (spent disk) h

  save_by-docs :
      (f : Fault) (key : String) (doc : D) (disk : Disk D)
      → ((save_by f key doc disk).1.docs ≡ insert key doc disk.docs)
        ⊎ ((save_by f key doc disk).1.docs ≡ disk.docs)
  unfolding save_by
  save_by-docs fine key doc disk = inl refl
  save_by-docs lost key doc disk = inr refl
  save_by-docs late key doc disk = inl refl

  -- A write is applied or not, and touches no other key.
  pub save-docs :
      (key : String) (doc : D) (disk : Disk D)
      → ((save key doc disk).1.docs ≡ insert key doc disk.docs)
        ⊎ ((save key doc disk).1.docs ≡ disk.docs)
  unfolding save
  save-docs key doc disk = save_by-docs (next_fault disk.faults) key doc (spent disk)

  load_by-answered :
      (f : Fault) (key : String) (o : Option D) (disk : Disk D)
      → (load_by f key disk).0 ≡ answered o
      → lookup key disk.docs ≡ o
  unfolding load_by
  load_by-answered fine key o disk h = cc
  load_by-answered lost key o disk h = cc
  load_by-answered late key o disk h = cc

  -- What a load answers is what is there.
  pub load-answered :
      (key : String) (o : Option D) (disk : Disk D)
      → (load key disk).0 ≡ answered o
      → lookup key disk.docs ≡ o
  unfolding load
  load-answered key o disk h = load_by-answered (next_fault disk.faults) key o (spent disk) h

  pub create_json-calm :
      (key : String) (doc old : D) (docs : List (String × D))
      → lookup key docs ≡ some old
      → create_json key doc (calm docs) ≡ (answered false, calm docs)
  unfolding create_json create_by create_present
  create_json-calm key doc old docs h = rw h refl

  pub load-calm :
      (key : String) (docs : List (String × D))
      → load key (calm docs) ≡ (answered (lookup key docs), calm docs)
  unfolding load load_by
  load-calm key docs = refl

  pub create_json-fresh :
      (key : String) (doc : D) (docs : List (String × D))
      → lookup key docs ≡ none
      → create_json key doc (calm docs) ≡ (answered true, calm (insert key doc docs))
  unfolding create_json create_by create_absent
  create_json-fresh key doc docs h = rw h refl

pub lookup-insert_same :
    {D : Type 0} (key : String) (doc : D) (docs : List (String × D))
    → lookup key (insert key doc docs) ≡ some doc
lookup-insert_same key doc docs = ground (arith, eq_iff key key, lookup-insert key key doc docs)

pub save-calm :
    {D : Type 0} (key : String) (doc : D) (docs : List (String × D))
    → save key doc (calm docs) ≡ (answered tt, calm (insert key doc docs))
unfolding save save_by
save-calm key doc docs = refl
