-- ===== src/Engine/Runtime/Document.antt =====
-- What a call of the runtime controller does to config.json.
use open_chronicle_next.Base.{◌≡◌, ◌⊎◌, inl, inr, refl, sym, subst, arith}
use open_chronicle_next.Base.Outcome.{Result, ok, err, Result-cases}
use open_chronicle_next.Store.World.{StoreGeneration}
use open_chronicle_next.Engine.Errors.{EngineError, store, configuration}
use open_chronicle_next.Engine.Config.{
  ConfigFile, missing, no_object, object, ConfigDocument, ConfigWorld, ConfigPlatform, calm_config,
  empty_document, judge_generation, ensure_current, enter, read_document, write_document,
}
use open_chronicle_next.Engine.Runtime.{Update, update_document, checked}

-- The object that the file holds.
unfoldable pub file_document : ConfigFile → Result EngineError ConfigDocument
file_document missing = ok empty_document
file_document no_object = err (configuration "config.json must contain a JSON object")
file_document (object d) = ok d

-- What a successful update leaves.
abbrev pub Updated : {A : Type 0} → Update A → ConfigWorld → ConfigWorld → A → Type 0
Updated update w v a =
    (d : ConfigDocument) × (d' : ConfigDocument) × (file_document w.config ≡ ok d)
    × (update d ≡ ok (a, d'))
    × (v ≡ record w { config = object d' })

read_parts :
    (os : ConfigPlatform) (w : ConfigWorld)
    → ((read_document os w).1 ≡ w)
      × (((e : EngineError) × ((read_document os w).0 ≡ err e))
          ⊎ ((d : ConfigDocument) × (file_document w.config ≡ ok d)
              × ((read_document os w).0 ≡ ok d)))
unfolding read_document file_document
read_parts os w = elim (Result-cases os.read_config) [
  | inr (e, failed) ↦ (ground arith, inl (store e, ground arith))
  | inl (done, read) ↦ elim (Result-cases (file_document w.config)) [
    | inl (d, held) ↦ (ground arith, inr (d, held, ground arith))
    | inr (e, held) ↦ (ground arith, inl (e, ground arith))
  ]
]

-- A call leaves the file as it was, or its update succeeded and its document stands there.
pub update_cases :
    {A : Type 0} (os : ConfigPlatform) (g : StoreGeneration) (update : Update A) (w : ConfigWorld)
    → ((update_document os g update w).1 ≡ w)
      ⊎ ((a : A) × Updated update w (update_document os g update w).1 a)
unfolding update_document enter ensure_current write_document
update_cases os g update w =
    let (same, outcome) = read_parts os w in
    elim outcome [
      | inl (e, failed) ↦ inl (ground arith)
      | inr (d, held, read) ↦ elim (Result-cases (update d)) [
        | inr (e, failed) ↦ inl (ground arith)
        | inl ((a, d'), changed) ↦ elim (Result-cases (enter os g w).0) [
          | inr (e, failed) ↦ inl (ground arith)
          | inl (done, entered) ↦ elim (Result-cases os.before_rename) [
            | inr (e, failed) ↦ inl (ground arith)
            | inl (done, passed) ↦ inr (a, (d, d', held, changed, ground arith))
          ]
        ]
      ]
    ]

-- A call that succeeds has changed the file by its update.
pub update_ok :
    {A : Type 0} (os : ConfigPlatform) (g : StoreGeneration) (update : Update A) (w : ConfigWorld)
    (a : A)
    → (update_document os g update w).0 ≡ ok a
    → Updated update w (update_document os g update w).1 a
unfolding update_document enter ensure_current write_document
update_ok os g update w a h =
    let (same, outcome) = read_parts os w in
    elim outcome [
      | inl (e, failed) ↦ absurd (ground arith)
      | inr (d, held, read) ↦ elim (Result-cases (update d)) [
        | inr (e, failed) ↦ absurd (ground arith)
        | inl ((b, d'), changed) ↦ (d, d', held, ground arith, ground arith)
      ]
    ]

-- Where the calls of the platform succeed and the generation is current, a call is its update.
pub update_calm :
    {A : Type 0} (g : StoreGeneration) (update : Update A) (w : ConfigWorld) (d d' : ConfigDocument)
    (a : A)
    → judge_generation g w.generation ≡ ok tt
    → file_document w.config ≡ ok d
    → update d ≡ ok (a, d')
    → (update_document calm_config g update w).0 ≡ ok a
unfolding update_document enter ensure_current write_document read_document file_document
update_calm g update w d d' a current held changed = ground arith

-- Likewise behind a check of the arguments.
pub checked_ok :
    {A : Type 0} (check : Result EngineError (Unit {0})) (os : ConfigPlatform) (g : StoreGeneration)
    (update : Update A) (w : ConfigWorld) (a : A)
    → (checked check (update_document os g update) w).0 ≡ ok a
    → (check ≡ ok tt) × Updated update w (checked check (update_document os g update) w).1 a
checked_ok (ok done) os g update w a h = (refl, update_ok os g update w a h)
checked_ok (err e) os g update w a h = absurd (ground arith)

-- A call that succeeds has found its generation current.
pub update_current :
    {A : Type 0} (os : ConfigPlatform) (g : StoreGeneration) (update : Update A) (w : ConfigWorld)
    (a : A)
    → (update_document os g update w).0 ≡ ok a
    → judge_generation g w.generation ≡ ok tt
unfolding update_document enter ensure_current
update_current os g update w a h = ground arith

-- A call after a call that succeeded, by calls of the platform that succeed: it reads the document
-- that the first has left.
pub checked_again :
    {A B : Type 0} (check check' : Result EngineError (Unit {0})) (os : ConfigPlatform)
    (g : StoreGeneration) (update : Update A) (update' : Update B) (w : ConfigWorld)
    (d' d'' : ConfigDocument) (a : A) (b : B)
    → (checked check (update_document os g update) w).0 ≡ ok a
    → (checked check (update_document os g update) w).1 ≡ record w { config = object d' }
    → check' ≡ ok tt
    → update' d' ≡ ok (b, d'')
    → (checked check'
        (update_document calm_config g update')
        (checked check (update_document os g update) w).1).0
      ≡ ok b
unfolding file_document
checked_again (err e) check' os g update update' w d' d'' a b h left passes changes =
    absurd (ground arith)
checked_again (ok done) check' os g update update' w d' d'' a b h left passes changes =
    let current = update_current os g update w a h in
    let again =
      update_calm g update' (record w { config = object d' }) d' d'' b current refl changes in
    subst (λ v. (checked check' (update_document calm_config g update') v).0 ≡ ok b) (sym left)
      (subst
        (λ c.
          (checked c (update_document calm_config g update') (record w { config = object d' })).0
          ≡ ok b)
        (sym passes) again)
