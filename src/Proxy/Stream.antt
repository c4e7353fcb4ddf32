-- ===== src/Proxy/Stream.antt =====
-- The stream of a proxied answer in apps/api/src/proxy/proxy.controller.ts, and the entry that is
-- recorded when it ends. The metrics of the answer are left out.
use get_mcp.Base.{
  ℕ, ◌+◌, ◌≡◌, refl, Bool, true, false, Option, none, some, List, [], ◌∷◌, if◌then◌else◌,
}
use get_mcp.Json.{Number}
use get_mcp.Agents.{ResolvedAgent}
use get_mcp.Proxy.Call.{
  Call, EntryReason, client_disconnected, Action, executed, incomplete, Entry, entry_of,
}

-- What happens to the response: a chunk of a size passes the counter, the response has been handed
-- over, its connection is closed, or the upstream's stream fails, upon which the response is ended.
pub data StreamEvent : Type 0 where
  chunk : ℕ → StreamEvent
  finish close upstream_error : StreamEvent

pub record Stream : Type 0 where
  pub recorded : Bool
  pub response_bytes : ℕ
  pub entries : List Entry

-- The answer that is streamed.
pub record Answer : Type 0 where
  pub call : Call
  pub agent : ResolvedAgent
  pub status : ℕ
  pub anomaly_score : Option Number

abbrev reason_for : Action → Option EntryReason
reason_for incomplete = some client_disconnected
reason_for _ = none

unfoldable pub final_entry : Answer → Action → ℕ → Entry
final_entry a action bytes =
    record (entry_of a.call (some a.agent.id) a.agent.source (reason_for action) action
      a.anomaly_score) { upstream_status = some a.status; response_bytes = some bytes }

unfoldable pub finalize : Answer → Action → Stream → Stream
finalize a action s =
    if s.recorded
    then s
    else record s { recorded = true; entries = final_entry a action s.response_bytes ∷ s.entries }

unfoldable pub on_event : Answer → StreamEvent → Stream → Stream
on_event a (chunk n) s = record s { response_bytes = s.response_bytes + n }
on_event a finish s = finalize a executed s
on_event a close s = finalize a incomplete s
on_event a upstream_error s = s

unfoldable pub on_events : Answer → List StreamEvent → Stream → Stream
on_events a [] s = s
on_events a (e ∷ events) s = on_events a events (on_event a e s)

abbrev pub start : List Entry → Stream
start entries = record { recorded = false; response_bytes = 0; entries = entries }

-- The first end of a stream, and the bytes that passed before it.
abbrev pub ending : ℕ → List StreamEvent → Option (Action × ℕ)
ending bytes [] = none
ending bytes (chunk n ∷ events) = ending (bytes + n) events
ending bytes (finish ∷ events) = some (executed, bytes)
ending bytes (close ∷ events) = some (incomplete, bytes)
ending bytes (upstream_error ∷ events) = ending bytes events

abbrev pub ended : Answer → Option (Action × ℕ) → List Entry → List Entry
ended a none entries = entries
ended a (some (action, bytes)) entries = final_entry a action bytes ∷ entries

on_events-recorded :
    (a : Answer) (events : List StreamEvent) (bytes : ℕ) (entries : List Entry)
    → (on_events a events
        (record { recorded = true; response_bytes = bytes; entries = entries })).entries
      ≡ entries
unfolding on_events on_event finalize
on_events-recorded a [] bytes entries = refl
on_events-recorded a (chunk n ∷ events) bytes entries =
    on_events-recorded a events (bytes + n) entries
on_events-recorded a (finish ∷ events) bytes entries = on_events-recorded a events bytes entries
on_events-recorded a (close ∷ events) bytes entries = on_events-recorded a events bytes entries
on_events-recorded a (upstream_error ∷ events) bytes entries =
    on_events-recorded a events bytes entries

on_events-open :
    (a : Answer) (events : List StreamEvent) (bytes : ℕ) (entries : List Entry)
    → (on_events a events
        (record { recorded = false; response_bytes = bytes; entries = entries })).entries
      ≡ ended a (ending bytes events) entries
unfolding on_events on_event finalize
on_events-open a [] bytes entries = refl
on_events-open a (chunk n ∷ events) bytes entries = on_events-open a events (bytes + n) entries
on_events-open a (finish ∷ events) bytes entries = on_events-recorded a events bytes _
on_events-open a (close ∷ events) bytes entries = on_events-recorded a events bytes _
on_events-open a (upstream_error ∷ events) bytes entries = on_events-open a events bytes entries

-- Whatever events come in whatever order, a stream is recorded once at most: when it first finishes,
-- as EXECUTED, or is closed, as INCOMPLETE, with the bytes that had passed until then. A failure of the
-- upstream's stream changes nothing of that.
pub on_events-ended :
    (a : Answer) (events : List StreamEvent) (entries : List Entry)
    → (on_events a events (start entries)).entries ≡ ended a (ending 0 events) entries
on_events-ended a events entries = on_events-open a events 0 entries
