-- ===== src/Graph/Rows.antt =====
-- The rows of the tables, and `INSERT` with its conflict clause. A graph is the list of the rows of
-- all tables. The key of a row is its table with the columns of the unique constraint that the
-- loader's statements name, the columns that the queries look for first.
pub mod Laws
use fact_checker.Base.{
  List, [], ◌∷◌, ◌++◌, map, any, Str, codes, Bool, true, false, ◌&&◌, ◌==◌, Option, none, some,
  if◌then◌else◌,
}
use fact_checker.Extract.{AnyMap}

pub record EventRow : Type 0 where
  pub id : Str
  pub kind : Option Str
  pub summary : Str
  pub description : Option Str
  pub location_entity_id : Option Str
  pub dating : AnyMap

pub record ClaimRow : Type 0 where
  pub id : Str
  pub statement : Str
  pub subject_entity_id : Option Str
  pub predicate : Option Str
  pub object_entity_id : Option Str
  pub object_value : Option Str
  pub confidence : Str

-- Each constructor is a table. A version is named by its claim and its label, and a source has the
-- `required_keys` of its locator scheme, if it has any.
pub data Row : Type 0 where
  entity_row : Str → Str → Str → AnyMap → Row
  name_row : Str → Str → Str → Option Str → Row
  event_row : EventRow → Row
  participant_row : Str → Str → Str → Row
  link_row : Str → Str → Str → Row
  event_source_row : Str → Str → AnyMap → Option Str → Row
  claim_row : ClaimRow → Row
  version_row : Str → Str → Str → Row
  claim_source_row : Str → Option Str → Str → AnyMap → Option Str → Row
  relationship_row : Str → Str → Str → Option Str → Row
  contradiction_row : Str → Str → Str → Row
  contradiction_claim_row : Str → Str → Str → Row
  source_row : Str → Option (List Str) → Row
  statement_row : Str → Option Str → Row
  provenance_row : Str → Str → Option Str → Option Str → Option Str → Option AnyMap → Row

abbrev pub Graph : Type 0
Graph = List Row

abbrev pub Key : Type 0
Key = List Str

abbrev version_key : Option Str → Key
version_key none = codes "claim" ∷ []
version_key (some label) = codes "version" ∷ label ∷ []

unfoldable pub key : Row → Key
key (entity_row id kind name attributes) = codes "entities" ∷ id ∷ []
key (name_row entity name kind language) = codes "entity_names" ∷ entity ∷ name ∷ []
key (event_row e) = codes "events" ∷ e.id ∷ []
key (participant_row event entity role) = codes "event_participants" ∷ event ∷ entity ∷ []
key (link_row from to kind) = codes "event_links" ∷ from ∷ to ∷ kind ∷ []
key (event_source_row event source locator remark) = codes "event_sources" ∷ event ∷ source ∷ []
key (claim_row c) = codes "claims" ∷ c.id ∷ []
key (version_row claim label statement) = codes "claim_versions" ∷ claim ∷ label ∷ []
key (claim_source_row claim version source locator remark) =
    codes "claim_sources" ∷ claim ∷ (version_key version ++ source ∷ [])
key (relationship_row from to rel_type claim) = codes "relationships" ∷ from ∷ to ∷ rel_type ∷ []
key (contradiction_row id title description) = codes "contradictions" ∷ id ∷ []
key (contradiction_claim_row contradiction claim label) =
    codes "contradiction_claims" ∷ claim ∷ contradiction ∷ []
key (source_row id scheme) = codes "sources" ∷ id ∷ []
key (statement_row id additions) = codes "statements" ∷ id ∷ []
key (provenance_row id statement claim event source locator) =
    codes "statement_provenance" ∷ id ∷ []

unfoldable pub same_key : Key → Key → Bool
same_key [] [] = true
same_key [] (y ∷ ys) = false
same_key (x ∷ xs) [] = false
same_key (x ∷ xs) (y ∷ ys) = x == y && same_key xs ys

unfoldable pub begins_with : Key → Key → Bool
begins_with [] k = true
begins_with (x ∷ xs) [] = false
begins_with (x ∷ xs) (y ∷ ys) = x == y && begins_with xs ys

-- `EXISTS (SELECT 1 FROM table t WHERE t.column = …)`, for the first columns of a key.
unfoldable pub exists_at : Key → Graph → Bool
unfolding begins_with key
exists_at first g = any (λ r. begins_with first (key r)) g

abbrev pub conflicts : Row → Graph → Bool
conflicts row g = any (λ r. same_key (key row) (key r)) g

-- `DO UPDATE` for a version, `DO NOTHING` for the other tables.
abbrev pub overwrite : Row → Row → Row
overwrite row old = if same_key (key row) (key old) then row else old

abbrev pub on_conflict : Row → Graph → Graph
on_conflict (version_row claim label statement) g =
    map (overwrite (version_row claim label statement)) g
on_conflict row g = g

unfoldable pub put : Row → Graph → Graph
put row g = if conflicts row g then on_conflict row g else g ++ row ∷ []

unfoldable pub put_all : List Row → Graph → Graph
unfolding put
put_all [] g = g
put_all (row ∷ rows) g = put_all rows (put row g)

-- The ids of a table: `SELECT id FROM table`.
abbrev pub id_in : Str → Key → List Str
id_in table (t ∷ id ∷ rest) = if t == table then id ∷ [] else []
id_in table k = []

unfoldable pub id_set : Str → Graph → List Str
unfolding key
id_set table [] = []
id_set table (r ∷ g) = id_in table (key r) ++ id_set table g
