-- ===== src/Extract/Hash.antt =====
-- `InputHash` of extract/extract.go. SHA-256 in hexadecimal and json.Marshal are parameters.
use fact_checker.Base.{ℕ, List, map, length, Str, ◌≡◌, ◌↔◌, [], ◌∷◌, refl, sym, ◌∙◌, ap}
use fact_checker.Extract.{AnyMap, Candidate, WorkUnit}

pub record HashedCandidate : Type 0 where
  pub source_id : Str
  pub locator : AnyMap
  pub title : Str

-- The map that is marshalled.
pub record HashInput : Type 0 where
  pub document_id : ℕ
  pub title : Str
  pub candidates : List HashedCandidate
  pub text_length : ℕ
  pub text_sha256 : Str

unfoldable pub hashed : Candidate → HashedCandidate
hashed c = record { source_id = c.source_id; locator = c.locator; title = c.title }

-- What a unit offers for citation, as far as the hash tells.
abbrev pub surface : WorkUnit → List (Str × AnyMap × Str)
surface u = map (λ (c : Candidate). (c.source_id, c.locator, c.title)) u.candidates

-- The units are of the same document, title and text, and have the same candidates.
pub record SameInput (u v : WorkUnit) : Type 0 where
  pub documents : u.document_id ≡ v.document_id
  pub titles : u.title ≡ v.title
  pub bodies : u.body ≡ v.body
  pub surfaces : surface u ≡ surface v

abbrev as_hashed : Str × AnyMap × Str → HashedCandidate
as_hashed (source_id, locator, title) = record {
  source_id = source_id;
  locator = locator;
  title = title;
}

abbrev of_hashed : HashedCandidate → Str × AnyMap × Str
of_hashed h = (h.source_id, h.locator, h.title)

as_hashed-surface :
    (cs : List Candidate)
    → map as_hashed (map (λ (c : Candidate). (c.source_id, c.locator, c.title)) cs) ≡ map hashed cs
unfolding hashed
as_hashed-surface [] = refl
as_hashed-surface (c ∷ cs) = ap (λ hs. hashed c ∷ hs) (as_hashed-surface cs)

of_hashed-hashed :
    (cs : List Candidate)
    → map of_hashed (map hashed cs) ≡ map (λ (c : Candidate). (c.source_id, c.locator, c.title)) cs
unfolding hashed
of_hashed-hashed [] = refl
of_hashed-hashed (c ∷ cs) = ap (λ hs. (c.source_id, c.locator, c.title) ∷ hs) (of_hashed-hashed cs)

module _ (sha256_hex : Str → Str) (marshal : HashInput → Str) where
  unfoldable pub hash_input : WorkUnit → HashInput
  unfolding hashed
  hash_input u = record {
    document_id = u.document_id;
    title = u.title;
    candidates = map hashed u.candidates;
    text_length = length u.body;
    text_sha256 = sha256_hex u.body;
  }

  unfoldable pub input_hash : WorkUnit → Str
  unfolding hash_input
  input_hash u = sha256_hex (marshal (hash_input u))

  -- Two units have the same hash exactly when they agree on the document, the title, the text and
  -- the source, locator and title of each candidate, in order; where json.Marshal tells the two
  -- inputs apart, and SHA-256 the two texts and the two results of json.Marshal.
  pub input_hash_iff :
      (u v : WorkUnit)
      → (sha256_hex u.body ≡ sha256_hex v.body → u.body ≡ v.body)
      → (sha256_hex (marshal (hash_input u)) ≡ sha256_hex (marshal (hash_input v))
          → marshal (hash_input u) ≡ marshal (hash_input v))
      → (marshal (hash_input u) ≡ marshal (hash_input v) → hash_input u ≡ hash_input v)
      → (input_hash u ≡ input_hash v) ↔ SameInput u v
  unfolding input_hash
  input_hash_iff u v texts results inputs = (
    λ h.
        let same = inputs (results h) in
        record {
          documents = ap (λ (i : HashInput). i.document_id) same;
          titles = ap (λ (i : HashInput). i.title) same;
          bodies = texts (ap (λ (i : HashInput). i.text_sha256) same);
          surfaces =
              sym (of_hashed-hashed u.candidates)
              ∙ ap (λ (i : HashInput). map of_hashed i.candidates) same
              ∙ of_hashed-hashed v.candidates;
        },
    λ s.
        let hashes : map hashed u.candidates ≡ map hashed v.candidates =
          sym (as_hashed-surface u.candidates)
          ∙ ap (map as_hashed) s.surfaces
          ∙ as_hashed-surface v.candidates in
        let documents = s.documents in let titles = s.titles in let bodies = s.bodies in cc,
  )
