-- ===== src/Tests/Hashes.antt =====
-- Two units that differ in their policy alone.
use fact_checker.Base.{◌↔◌, ◌≡◌, refl, Str, false}
use fact_checker.Extract.{WorkUnit}
use fact_checker.Extract.Hash.{HashInput, input_hash, hash_input, SameInput, input_hash_iff}
use fact_checker.Tests.Samples.{galadriel}

abbrev lax : WorkUnit
lax = record galadriel { policy = record { require_reference = false; require_primary = false } }

abbrev sha256_hex : Str → Str
sha256_hex s = s

abbrev marshal : HashInput → Str
marshal input = input.title

input_hash_iff_example :
    (input_hash sha256_hex marshal galadriel ≡ input_hash sha256_hex marshal lax)
    ↔ SameInput galadriel lax
unfolding hash_input
input_hash_iff_example =
    input_hash_iff sha256_hex marshal galadriel lax (λ h. h) (λ h. h) (λ h. refl)
