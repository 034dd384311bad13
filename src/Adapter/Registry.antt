-- ===== src/Adapter/Registry.antt =====
-- The registry of adapters/adapters.go. The file system and the decoding of JSON are parameters;
-- an adapter is a value of a type `A`.
use fact_checker.Base.{
  List, [], ◌++◌, Str, codes, ◌==◌, Option, none, some, lookup, insert, Result, ok, err, ◌>>=◌,
  if◌then◌else◌,
}

-- A factory builds an adapter from the manifest.
abbrev pub Factory : Type 0 → Type 0
Factory A = Str → Result A

abbrev pub Registry : Type 0 → Type 0
Registry A = List (Str × Factory A)

-- `Register`: a name that is registered before gets the new factory.
unfoldable pub register : {A : Type 0} → Str → Factory A → Registry A → Registry A
register name factory factories = insert name factory factories

-- `os.ReadFile`, the "adapter" field of a manifest that parses, and `%q`.
pub record Files : Type 0 where
  pub read_file : Str → Result Str
  pub adapter_field : Str → Result Str
  pub quote : Str → Str

abbrev under {ℓ} : {T : Type ℓ} → Str → Result T → Result T
under what (ok v) = ok v
under what (err message) = err (what ++ message)

module _ {A : Type 0} (files : Files) (factories : Registry A) where
  abbrev build : Str → Str → Option (Factory A) → Result A
  build name raw none = err (
      codes "adapters: unknown adapter "
      ++ files.quote name
      ++ codes " (registered adapters are compiled in)")
  build name raw (some factory) = factory raw

  unfoldable pub load_manifest : Str → Result A
  load_manifest path = under (codes "adapters: read manifest: ") (files.read_file path) >>= λ raw.
      under (codes "adapters: parse manifest: ") (files.adapter_field raw) >>= λ name.
      if name == []
      then err (codes "adapters: manifest " ++ path ++ codes " has no \"adapter\" field")
      else build name raw (lookup name factories)
