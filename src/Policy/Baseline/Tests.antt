-- ===== src/Policy/Baseline/Tests.antt =====
-- apps/api/src/policy/baseline.service.ts on concrete inputs.
use get_mcp.Base.{ℕ, ◌-◌, ◌*◌, refl, List, [], ◌∷◌, length, Text, codes, lookup}
use get_mcp.Cache.{cached}
use get_mcp.Policy.Baseline.{LogRow, AnomalyScore, path_key, rows_since, score_request}
use get_mcp.Policy.Baseline.Counts.{calls}
use get_mcp.Policy.Baseline.Scores.{IsScore, score_request-IsScore}

abbrev call : ℕ → Text → LogRow
call timestamp path = record {
  organization_id = codes "o1";
  agent_id = codes "a1";
  timestamp = timestamp;
  method = codes "get";
  path = path;
}

-- Two calls before the window of seven days, and two in the last minute.
abbrev logs : List LogRow
logs =
    call 1 (codes "/old")
    ∷ call 308_800_000 (codes "/a")
    ∷ call 999_990_000 (codes "/a")
    ∷ call 999_995_000 (codes "/b")
    ∷ []

abbrev score : AnomalyScore
score =
    (score_request logs 1_000_000_000 (codes "o1") (codes "a1") (codes "GET") (codes "/old") 7 []).0

score_request-IsScore_example :
    let rows =
      rows_since (codes "o1") (codes "a1") (1_000_000_000 - 7 * 24 * 60 * 60 * 1000) logs in
    let latest = rows_since (codes "o1") (codes "a1") (1_000_000_000 - 60_000) logs in
    IsScore
      (calls (path_key (codes "GET") (codes "/old")) rows)
      (length rows)
      (7 * 24 * 60)
      (length latest)
      score
unfolding cached lookup
score_request-IsScore_example =
    score_request-IsScore logs 1_000_000_000 (codes "o1") (codes "a1") (codes "GET") (codes "/old")
      7 [] refl
