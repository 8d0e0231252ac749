-- ===== src/Embedding/Fresh.antt =====
-- Interleavings of the embedding workers, go_api/internal/embedding/worker.go: any workers, of any
-- versions, in any order, with changes of the tags and comments between their steps.
use imageboard.Base.{
  ℕ, suc, ◌≤◌, ◌≡◌, refl, sym, ◌∷◌, List, Bool, true, false, ◌&&◌, none, some, arith, Bool-cases,
  inl, inr,
}
use imageboard.Text.{Bytes, bytes_eq, bytes_eq_iff, All, All-mono}
use imageboard.Embedding.{
  Status, pending, running, ready, empty, failed, Source, Item, Job, is_running, is_claimable,
  claim, claimed, renewed, put_off, published, is_current, read_source, renew, is_publishable,
  stored, publish, fail, requeue, configure, change_source,
}

-- How a version makes its vectors, and tells that one has no terms.
pub record Encoder (V : Type 0) : Type 0 where
  pub vectorize : Bytes → Source → V
  pub is_empty : V → Bool
  pub source_hash : Source → Bytes → Bytes

-- The setting, the rows of the image, and what workers have read and not forgotten.
pub record World (V : Type 0) : Type 0 where
  pub setting : Bytes
  pub item : Item V
  pub reads : List (Job × Source)

-- The worker has read this, as this job.
pub data Read (job : Job) (source : Source) : List (Job × Source) → Type 0 where
  here : (rest : List (Job × Source)) → Read job source ((job, source) ∷ rest)
  there :
      (r : Job × Source) (rest : List (Job × Source))
      → Read job source rest
      → Read job source (r ∷ rest)

module _ {V : Type 0} (e : Encoder V) where
  -- One statement of a worker or of the API. A worker publishes what it has read, at its version.
  pub data Step : World V → World V → Type 0 where
    changes :
        (w : World V) (source : Source) (now : ℕ)
        → Step w (record w { item = change_source source now w.item })
    claims : (w : World V) (token now : ℕ) → Step w (record w { item = (claim token now w.item).1 })
    reads_source :
        (w : World V) (job : Job) (source : Source)
        → read_source job w.item ≡ some source
        → Step w (record w { reads = (job, source) ∷ w.reads })
    renews :
        (w : World V) (job : Job) (now : ℕ) → Step w (record w { item = (renew job now w.item).1 })
    publishes :
        (w : World V) (version : Bytes) (job : Job) (source : Source) (now : ℕ)
        → Read job source w.reads
        → Step w (record w {
          item =
              (publish w.setting version job now
                (e.is_empty (e.vectorize version source))
                (e.source_hash source version)
                (e.vectorize version source)
                w.item).1;
        })
    fails : (w : World V) (job : Job) (now : ℕ) → Step w (record w { item = fail job now w.item })
    configures :
        (w : World V) (version : Bytes) (now : ℕ)
        → Step w (record w {
          setting = (configure version now (w.setting, w.item)).0;
          item = (configure version now (w.setting, w.item)).1;
        })

  -- Any number of statements.
  pub data Steps : World V → World V → Type 0 where
    done : (w : World V) → Steps w w
    next : {w w' w'' : World V} → Steps w w' → Step w' w'' → Steps w w''

  -- A source that was read at the item's revision is the item's.
  abbrev pub AgreesWith : Item V → Job × Source → Type 0
  AgreesWith i (job, source) =
      (job.revision ≤ i.revision) × (job.revision ≡ i.revision → source ≡ i.source)

  -- What is shown when the job is done.
  abbrev pub Shows : Bytes → Item V → Status → Type 0
  Shows setting i ready =
      (e.is_empty (e.vectorize setting i.source) ≡ false)
      × (i.embedding
          ≡ some record {
            version = setting;
            source_hash = e.source_hash i.source setting;
            built_revision = i.revision;
            terms = e.vectorize setting i.source;
          })
  Shows setting i empty = (e.is_empty (e.vectorize setting i.source) ≡ true) × (i.embedding ≡ none)
  Shows setting i _ = Unit {0}

  -- A job that is ready or empty shows what the current version makes of the current source.
  pub record IsFresh (w : World V) : Type 0 where
    pub agree : All (AgreesWith w.item) w.reads
    pub shows : Shows w.setting w.item w.item.status

  publishable_revision :
      (setting version : Bytes) (job : Job) (now : ℕ) (i : Item V)
      → (is_publishable job now i && bytes_eq setting version) ≡ true
      → job.revision ≡ i.revision
  unfolding is_publishable is_current
  publishable_revision setting version job now i h = ground arith

  publishable_version :
      (setting version : Bytes) (job : Job) (now : ℕ) (i : Item V)
      → (is_publishable job now i && bytes_eq setting version) ≡ true
      → version ≡ setting
  publishable_version setting version job now i h =
      sym ((bytes_eq_iff setting version).0 (ground arith))

  Read-All :
      (P : Job × Source → Type 0) (job : Job) (source : Source) (reads : List (Job × Source))
      → Read job source reads
      → All P reads
      → P (job, source)
  Read-All P job source _ (here rest) h = h.0
  Read-All P job source _ (there r rest m) h = Read-All P job source rest m h.1

  -- Behind a row whose revision has grown, what was read before agrees with anything.
  agree_later :
      (i i' : Item V) (reads : List (Job × Source))
      → i'.revision ≡ suc i.revision
      → All (AgreesWith i) reads
      → All (AgreesWith i') reads
  agree_later i i' reads r h =
      All-mono (AgreesWith i) (AgreesWith i') reads
        (λ q a. (omega (arith, a.0, r), λ k. absurd (omega (arith, a.0, r, k)))) h

  agree_same :
      (i i' : Item V) (reads : List (Job × Source))
      → i'.revision ≡ i.revision
      → i'.source ≡ i.source
      → All (AgreesWith i) reads
      → All (AgreesWith i') reads
  agree_same i i' reads r s h =
      All-mono (AgreesWith i) (AgreesWith i') reads
        (λ q a. (omega (arith, a.0, r), λ k. rw s (a.1 (omega (arith, k, r))))) h

  changes-IsFresh :
      (w : World V) (source : Source) (now : ℕ)
      → IsFresh w
      → IsFresh (record w { item = change_source source now w.item })
  unfolding change_source requeue
  changes-IsFresh w source now h = record {
    agree = agree_later w.item (change_source source now w.item) w.reads refl h.agree;
    shows = tt;
  }

  claims-IsFresh :
      (w : World V) (token now : ℕ)
      → IsFresh w
      → IsFresh (record w { item = (claim token now w.item).1 })
  unfolding claim claimed
  claims-IsFresh w token now h = elim (Bool-cases (is_claimable now w.item)) [
    | inl q ↦ rw q record {
      agree = agree_same w.item (claimed token now w.item) w.reads refl refl h.agree;
      shows = tt;
    }
    | inr q ↦ rw q record { agree = h.agree; shows = h.shows }
  ]

  reads-IsFresh :
      (w : World V) (job : Job) (source : Source)
      → read_source job w.item ≡ some source
      → IsFresh w
      → IsFresh (record w { reads = (job, source) ∷ w.reads })
  unfolding read_source is_current
  reads-IsFresh w job source r h = record { agree = (ground arith, h.agree); shows = h.shows }

  Shows-renewed :
      (setting : Bytes) (now : ℕ) (i : Item V) (status : Status)
      → Shows setting i status
      → Shows setting (renewed now i) status
  unfolding renewed
  Shows-renewed setting now i pending h = tt
  Shows-renewed setting now i running h = tt
  Shows-renewed setting now i ready h = h
  Shows-renewed setting now i empty h = h
  Shows-renewed setting now i failed h = tt

  renews-IsFresh :
      (w : World V) (job : Job) (now : ℕ)
      → IsFresh w
      → IsFresh (record w { item = (renew job now w.item).1 })
  unfolding renew renewed
  renews-IsFresh w job now h =
      elim (Bool-cases (is_current job w.item && is_running w.item.status)) [
        | inl q ↦ rw q record {
          agree = agree_same w.item (renewed now w.item) w.reads refl refl h.agree;
          shows = Shows-renewed w.setting now w.item w.item.status h.shows;
        }
        | inr q ↦ rw q record { agree = h.agree; shows = h.shows }
      ]

  fails-IsFresh :
      (w : World V) (job : Job) (now : ℕ)
      → IsFresh w
      → IsFresh (record w { item = fail job now w.item })
  unfolding fail put_off
  fails-IsFresh w job now h = elim (Bool-cases (is_current job w.item)) [
    | inl q ↦ rw q record {
      agree = agree_same w.item (put_off job now w.item) w.reads refl refl h.agree;
      shows = tt;
    }
    | inr q ↦ rw q record { agree = h.agree; shows = h.shows }
  ]

  configures-IsFresh :
      (w : World V) (version : Bytes) (now : ℕ)
      → IsFresh w
      → IsFresh (record w {
        setting = (configure version now (w.setting, w.item)).0;
        item = (configure version now (w.setting, w.item)).1;
      })
  unfolding configure requeue
  configures-IsFresh w version now h = elim (Bool-cases (bytes_eq w.setting version)) [
    | inl q ↦ rw q record { agree = h.agree; shows = h.shows }
    | inr q ↦
        rw q record {
          agree = agree_later w.item (requeue now w.item) w.reads refl h.agree;
          shows = tt;
        }
  ]

  published-Shows :
      (setting : Bytes) (job : Job) (i : Item V) (absent : Bool)
      → e.is_empty (e.vectorize setting i.source) ≡ absent
      → job.revision ≡ i.revision
      → let i' =
          published absent setting
            (e.source_hash i.source setting)
            job
            (e.vectorize setting i.source)
            i in
        Shows setting i' i'.status
  unfolding published stored
  published-Shows setting job i true a r = (a, refl)
  published-Shows setting job i false a r = (a, rw r refl)

  published-IsFresh :
      (w : World V) (job : Job)
      → job.revision ≡ w.item.revision
      → IsFresh w
      → IsFresh (record w {
        item =
            published
              (e.is_empty (e.vectorize w.setting w.item.source))
              w.setting
              (e.source_hash w.item.source w.setting)
              job
              (e.vectorize w.setting w.item.source)
              w.item;
      })
  unfolding published
  published-IsFresh w job r h = record {
    agree =
        agree_same w.item
          (published (e.is_empty (e.vectorize w.setting w.item.source)) w.setting
            (e.source_hash w.item.source w.setting) job (e.vectorize w.setting w.item.source)
            w.item)
          w.reads refl refl h.agree;
    shows = published-Shows w.setting job w.item _ refl r;
  }

  publishes-IsFresh :
      (w : World V) (version : Bytes) (job : Job) (source : Source) (now : ℕ)
      → Read job source w.reads
      → IsFresh w
      → IsFresh (record w {
        item =
            (publish w.setting version job now
              (e.is_empty (e.vectorize version source))
              (e.source_hash source version)
              (e.vectorize version source)
              w.item).1;
      })
  unfolding publish
  publishes-IsFresh w version job source now m h =
      elim (Bool-cases (is_publishable job now w.item && bytes_eq w.setting version)) [
        | inr q ↦ rw q record { agree = h.agree; shows = h.shows }
        | inl q ↦ rw q (
            let agreed = Read-All (AgreesWith w.item) job source w.reads m h.agree in
            let r = publishable_revision w.setting version job now w.item q in
            rw (agreed.1 r, publishable_version w.setting version job now w.item q)
              (published-IsFresh w job r h))
      ]

  Step-IsFresh : {w w' : World V} → Step w w' → IsFresh w → IsFresh w'
  Step-IsFresh (changes w source now) h = changes-IsFresh w source now h
  Step-IsFresh (claims w token now) h = claims-IsFresh w token now h
  Step-IsFresh (reads_source w job source r) h = reads-IsFresh w job source r h
  Step-IsFresh (renews w job now) h = renews-IsFresh w job now h
  Step-IsFresh (publishes w version job source now m) h =
      publishes-IsFresh w version job source now m h
  Step-IsFresh (fails w job now) h = fails-IsFresh w job now h
  Step-IsFresh (configures w version now) h = configures-IsFresh w version now h

  -- Whatever workers of whatever versions do, and however the tags and comments change in between:
  -- from a fresh world every statement leads to one, in which an image that is ready shows the
  -- vector that the set version makes of the image's present tags and comments, and one that is
  -- empty shows none.
  pub Steps-IsFresh : {w w' : World V} → Steps w w' → IsFresh w → IsFresh w'
  Steps-IsFresh (done w) h = h
  Steps-IsFresh (next before step) h = Step-IsFresh step (Steps-IsFresh before h)
