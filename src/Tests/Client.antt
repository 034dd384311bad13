-- ===== src/Tests/Client.antt =====
-- The client of the model endpoint, with an endpoint that never answers.
use fact_checker.Base.{
  true, ℕ, suc, ◌≤◌, min, [], ◌∷◌, ◌≡◌, ◌↔◌, Str, codes, ◌==◌, Option, none, some, false,
}
use fact_checker.Llm.Types.{Client, max_backoff}
use fact_checker.Llm.Backoff.{pause, pause-bounds}
use fact_checker.Llm.Gate.{slots, IsSpaced, slots-IsSpaced}
use fact_checker.Llm.Reply.{answer, unreachable, classify, is_again}
use fact_checker.Llm.Reply.Laws.{Transient, classify-again}
use fact_checker.Llm.Call.{World, CallState, Formats}

abbrev one_second : Str → Option ℕ
one_second header = some 1000000000

abbrev identity : Str → Str
identity s = s

abbrev print : ℕ → Str
print n = n ∷ []

-- The world counts the requests.
abbrev silent : World ℕ
silent = record {
  cancelled = λ w. none;
  now = λ w. w;
  wait = λ d w. (none, w);
  send = λ body w. (unreachable (codes "refused"), suc w);
}

abbrev formats : Formats
formats = record {
  to_lower = identity;
  print = print;
  parse_seconds = one_second;
  decode_reply = λ raw. none;
}

abbrev client : Client
client = record {
  api_key = codes "key";
  model = codes "model";
  base_url = codes "http://host";
  interval = 500;
  timeout = 1000;
  max_token = 10;
}

abbrev fresh : CallState ℕ
fresh = record { last_slot = none; world = 0 }

slots-IsSpaced_example : IsSpaced 10 none (slots 10 none (5 ∷ 6 ∷ 40 ∷ 3 ∷ []))
slots-IsSpaced_example = slots-IsSpaced 10 none (5 ∷ 6 ∷ 40 ∷ 3 ∷ [])

classify-again_example :
    (is_again identity print (classify identity print (answer 503 (codes "1") (codes "busy") none))
      ≡ true)
    ↔ Transient identity (answer 503 (codes "1") (codes "busy") none)
classify-again_example = classify-again identity print (answer 503 (codes "1") (codes "busy") none)

pause-bounds_example :
    (min 5 max_backoff ≤ pause one_second 5 (codes "1"))
    × (pause one_second 5 (codes "1") ≤ max_backoff)
    × ((hint : ℕ)
        → (codes "1" == []) ≡ false
        → one_second (codes "1") ≡ some hint
        → min hint max_backoff ≤ pause one_second 5 (codes "1"))
pause-bounds_example = pause-bounds one_second 5 (codes "1")
