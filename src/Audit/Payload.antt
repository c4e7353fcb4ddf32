-- ===== src/Audit/Payload.antt =====
-- What an audit row's hash is taken of: `HashablePayload`, `rowToHashable` and `computeAuditHash` of
-- apps/api/src/audit/canonical.util.ts. SHA-256 is a parameter.
use mathlib.Core.Option
use get_mcp.Base.{
  ℕ, ◌+◌, ◌-◌, ◌*◌, ◌/◌, ◌%◌, Option, none, some, List, [], ◌∷◌, ◌++◌, ltb, leb, if◌then◌else◌,
  Text, codes, ℤ, pos, padded,
}
use get_mcp.Json.{Number}
use get_mcp.Audit.Canonical.{Value, Members, canonical_json}

-- A row of the table. Times are milliseconds since 1970.
pub record AuditLog : Type 0 where
  pub id : Text
  pub organization_id : Text
  pub seq : ℕ
  pub timestamp : ℕ
  pub method : Text
  pub path : Text
  pub source : Text
  pub tenant_id : Option Text
  pub agent_id : Option Text
  pub api_key_id : Option Text
  pub reasoning : Option Text
  pub reason : Option Text
  pub action_taken : Text
  pub upstream_status : Option ℤ
  pub request_bytes : ℕ
  pub response_bytes : Option ℕ
  pub latency_ms : ℤ
  pub anomaly_score : Option Number
  pub prev_hash : Text
  pub hash : Text

pub record HashablePayload : Type 0 where
  pub organization_id : Text
  pub seq : ℕ
  pub timestamp : Text
  pub method : Text
  pub path : Text
  pub source : Text
  pub tenant_id : Option Text
  pub agent_id : Option Text
  pub api_key_id : Option Text
  pub reasoning : Option Text
  pub reason : Option Text
  pub action_taken : Text
  pub upstream_status : Option ℤ
  pub request_bytes : ℕ
  pub response_bytes : Option ℕ
  pub latency_ms : ℤ
  pub prev_hash : Text

-- The year, month and day of a number of days since 1970, by eras of 400 years that begin in March.
unfoldable pub civil_date : ℕ → Text
civil_date days =
    let z = days + 719468 in
    let day_of_era = z % 146097 in
    let year_of_era =
      (day_of_era - day_of_era / 1460 + day_of_era / 36524 - day_of_era / 146096) / 365 in
    let day_of_year = day_of_era - (365 * year_of_era + year_of_era / 4 - year_of_era / 100) in
    let shifted = (5 * day_of_year + 2) / 153 in
    let day = day_of_year - (153 * shifted + 2) / 5 + 1 in
    let month = if ltb shifted 10 then shifted + 3 else shifted - 9 in
    let year = year_of_era + z / 146097 * 400 + (if leb month 2 then 1 else 0) in
    padded 4 year ++ codes "-" ++ padded 2 month ++ codes "-" ++ padded 2 day

-- `new Date(t).toISOString()`, up to the year 9999.
unfoldable pub to_iso_string : ℕ → Text
unfolding civil_date
to_iso_string t =
    civil_date (t / 86400000)
    ++ codes "T"
    ++ padded 2 (t / 3600000 % 24)
    ++ codes ":"
    ++ padded 2 (t / 60000 % 60)
    ++ codes ":"
    ++ padded 2 (t / 1000 % 60)
    ++ codes "."
    ++ padded 3 (t % 1000)
    ++ codes "Z"

unfoldable pub row_to_hashable : AuditLog → HashablePayload
row_to_hashable row = record {
  organization_id = row.organization_id;
  seq = row.seq;
  timestamp = to_iso_string row.timestamp;
  method = row.method;
  path = row.path;
  source = row.source;
  tenant_id = row.tenant_id;
  agent_id = row.agent_id;
  api_key_id = row.api_key_id;
  reasoning = row.reasoning;
  reason = row.reason;
  action_taken = row.action_taken;
  upstream_status = row.upstream_status;
  request_bytes = row.request_bytes;
  response_bytes = row.response_bytes;
  latency_ms = row.latency_ms;
  prev_hash = row.prev_hash;
}

abbrev text_or_null : Option Text → Value
text_or_null none = Value.null
text_or_null (some s) = Value.string s

abbrev number_or_null : Option ℤ → Value
number_or_null none = Value.null
number_or_null (some n) = Value.number n

abbrev count_or_null : Option ℕ → Value
count_or_null none = Value.null
count_or_null (some n) = Value.number (pos n)

-- The members of a payload, in the order of its literal.
unfoldable pub payload_members : HashablePayload → List (Text × Value)
payload_members p =
    (codes "organizationId", Value.string p.organization_id)
    ∷ ((codes "seq", Value.number (pos p.seq))
        ∷ ((codes "timestamp", Value.string p.timestamp)
            ∷ ((codes "method", Value.string p.method)
                ∷ ((codes "path", Value.string p.path)
                    ∷ ((codes "source", Value.string p.source)
                        ∷ ((codes "tenantId", text_or_null p.tenant_id)
                            ∷ ((codes "agentId", text_or_null p.agent_id)
                                ∷ ((codes "apiKeyId", text_or_null p.api_key_id)
                                    ∷ ((codes "reasoning", text_or_null p.reasoning)
                                        ∷ ((codes "reason", text_or_null p.reason)
                                            ∷ ((codes "actionTaken", Value.string p.action_taken)
                                                ∷ ((
                                                  codes "upstreamStatus",
                                                  number_or_null p.upstream_status,
                                                )
                                                    ∷ ((
                                                      codes "requestBytes",
                                                      Value.number (pos p.request_bytes),
                                                    )
                                                        ∷ ((
                                                          codes "responseBytes",
                                                          count_or_null p.response_bytes,
                                                        )
                                                            ∷ ((
                                                            codes "latencyMs",
                                                            Value.number p.latency_ms,
                                                            )
                                                            ∷ ((
                                                            codes "prevHash",
                                                            Value.string p.prev_hash,
                                                            )
                                                            ∷ []))))))))))))))))

unfoldable pub members_of : List (Text × Value) → Members
members_of [] = Members.end
members_of ((k, v) ∷ ms) = Members.member k v (members_of ms)

unfoldable pub payload_value : HashablePayload → Value
unfolding payload_members members_of
payload_value p = Value.object (members_of (payload_members p))

-- `computeAuditHash`; none where `canonicalJson` throws.
unfoldable pub compute_audit_hash : (Text → Text) → HashablePayload → Option Text
compute_audit_hash sha256 payload = Option.map sha256 (canonical_json (payload_value payload))
