-- ===== src/Store/World.antt =====
-- What a managed root holds of the generation and the disclosure receipts, and calls on it. A file
-- is the document that serde reads from it. The outcome of each lock, read, rename and directory
-- sync is the platform's, and is a parameter.
use open_chronicle_next.Base.{ℕ, Bool, ◌||◌, Option, none, some, ◌==◌, if◌then◌else◌}
use open_chronicle_next.Base.{not}
use open_chronicle_next.Base.Outcome.{Result, ok, err}
use open_chronicle_next.Store.Errors.{StoreError, invalid_path, io}

-- `StoreGeneration` of crates/chronicle-store/src/generation.rs.
pub record StoreGeneration : Type 0 where
  pub schema_version : ℕ
  pub generation : ℕ
  pub epoch_id : ℕ

-- The outcomes that the operating system chooses in one call.
pub record Platform : Type 0 where
  pub shared_request : Result StoreError (Unit {0})
  pub grant_receipts : Result StoreError (Unit {0})
  pub read_receipts : Result StoreError (Unit {0})
  pub before_rename : Result StoreError (Unit {0})
  pub directory_sync : Result StoreError (Unit {0})

-- Every call of the operating system succeeds.
abbrev pub calm : Platform
calm = record {
  shared_request = ok tt;
  grant_receipts = ok tt;
  read_receipts = ok tt;
  before_rename = ok tt;
  directory_sync = ok tt;
}

-- The two files, over the type of the receipts' document.
pub record World (D : Type 0) : Type 0 where
  pub generation : Option StoreGeneration
  pub receipts : Option D

abbrev pub Action : Type 0 → Type 0 → Type 0
Action D A = World D → Result StoreError A × World D

module _ {D A : Type 0} where
  abbrev pub pure : A → Action D A
  pure a w = (ok a, w)

  abbrev pub raise : StoreError → Action D A
  raise e w = (err e, w)

  -- `?` on a result that does not touch the files.
  abbrev pub lift : Result StoreError A → Action D A
  lift r w = (r, w)

infixl 5 ◌>>=◌ ◌>>◌
abbrev pub ◌>>=◌ : {D A B : Type 0} → Action D A → (A → Action D B) → Action D B
◌>>=◌ m f w = let (r, w') = m w in elim r [ ok a ↦ f a w' | err e ↦ (err e, w') ]

abbrev pub ◌>>◌ : {D B : Type 0} → Action D (Unit {0}) → Action D B → Action D B
m >> k = m >>= λ _. k

abbrev pub refuse : {D : Type 0} → Bool → StoreError → Action D (Unit {0})
refuse test e w = (if test then err e else ok tt, w)

-- `StoreGeneration::load`.
unfoldable pub load_generation : {D : Type 0} → Action D StoreGeneration
load_generation w = elim w.generation [
  | none ↦ (err (io "store-generation"), w)
  | some g ↦
      if not (g.schema_version == 1) || g.generation == 0
      then (err (invalid_path "invalid store-generation document"), w)
      else (ok g, w)
]

-- `ManagedRoot::atomic_write_with_boundary` of crates/chronicle-store/src/layout.rs on the receipts:
-- the rename puts the whole document in place, and what fails later leaves it there.
unfoldable pub atomic_write_with_boundary :
    {D : Type 0} → Platform → D → Result StoreError (Unit {0}) → Action D (Unit {0})
atomic_write_with_boundary os d boundary = do
  lift os.before_rename
  (λ w. (ok tt, record w { receipts = some d }))
  lift boundary
  lift os.directory_sync
