-- ===== src/Extract.antt =====
-- The vocabulary of the extraction stage: extract/extract.go.
pub mod Hash
use fact_checker.Base.{ℕ, Bool, true, List, Str}

-- What a `map[string]any` holds after JSON decoding. A number is kept as its literal.
mutual
  pub data Any : Type 0 where
    null : Any
    boolean : Bool → Any
    number : Str → Any
    text : Str → Any
    array : Items → Any
    object : Fields → Any

  pub data Items : Type 0 where
    no_items : Items
    item : Any → Items → Items

  pub data Fields : Type 0 where
    no_fields : Fields
    field : Str → Any → Fields → Fields

-- `map[string]any`
abbrev pub AnyMap : Type 0
AnyMap = List (Str × Any)

pub record CitationPolicy : Type 0 where
  pub require_reference : Bool
  pub require_primary : Bool

abbrev pub both_tier : CitationPolicy
both_tier = record { require_reference = true; require_primary = true }

pub record Citation : Type 0 where
  pub source_id : Str
  pub locator : AnyMap
  pub note : Str

pub record Candidate : Type 0 where
  pub source_id : Str
  pub tier : ℕ
  pub citation_form : Str
  pub locator : AnyMap
  pub title : Str
  pub period : Str
  pub summary : Str
  pub default_pick : Bool

pub record Source : Type 0 where
  pub id : Str
  pub tier : ℕ
  pub title : Str
  pub citation_form : Str
  pub locator_scheme : AnyMap

-- A row of raw_documents; the time of the fetch is a number.
pub record Document : Type 0 where
  pub id : ℕ
  pub source_id : Str
  pub title : Str
  pub url : Str
  pub fetched_at : ℕ
  pub revision : Str
  pub content_text : Str

pub record WorkUnit : Type 0 where
  pub unit_key : Str
  pub document_id : ℕ
  pub title : Str
  pub body : Str
  pub truncated : Bool
  pub reference : Citation
  pub candidates : List Candidate
  pub policy : CitationPolicy
  pub scope_notes : List Str
  pub known_entity_ids : List Str
  pub rel_types : List Str
  pub rel_aliases : List (Str × Str)
