-- ===== src/E2e/Live.antt =====
-- src/e2e.rs: the commands that stand for bridges and brokers in live mode.
-- The processes, the environment and the formats are a parameter: `Host`.
pub mod Words
pub mod Broker
pub mod Runners
use greentic_events.Base.{
  ℕ, ◌+◌, ◌==◌, leb, zero, suc, Bool, true, false, not, ◌&&◌, ◌||◌, Option, none, some, List, [],
  ◌∷◌, ◌++◌, Result, ok, err, then_ok, ok_or, map_err, map_option, unwrap_or, and_then, find, any,
  if◌then◌else◌,
}
use greentic_events.Base.Str.{Str, codes, is_blank}
use greentic_events.Base.Io.{Io, with_context, pure_io, ◌>>=◌, ◌>>◌}
use greentic_events.Event.{
  Json, Fields, end, field, object, string, bool, number, EventEnvelope, TenantCtx, as_str, array,
}
use greentic_events.Event.Object.{get}
use greentic_events.Message.{ChannelMessageEnvelope}
use greentic_events.Descriptor.{EventProviderSpec, broker}
use greentic_events.E2e.{PackLoad, load_fixture}
use greentic_events.E2e.Checks.{Formats}
use greentic_events.E2e.Run.{kind_is}
use greentic_events.E2e.Fixtures.{
  Envelopes, fixture_message, fixture_event, source_name, sink_name, fixture_ingest, fixture_emit,
}
use greentic_events.E2e.Task.{Task, safely}
use greentic_events.E2e.Live.Words.{split_whitespace}

pub record Output : Type 0 where
  pub success : Bool
  pub status : Str
  pub stdout : Str
  pub stderr : Str

pub record Host (W R : Type 0) : Type 0 where
  -- `std::env::var(name).ok()`
  pub env_var : Str → W → Option Str
  -- a process with its arguments and its standard input
  pub execute : Str → List Str → Str → Io W Output
  pub to_vec : Json → Str
  pub from_utf8 : Str → Result Str Str
  pub from_utf8_lossy : Str → Str
  pub parse_json : Str → Result Str Json
  -- envelopes as JSON values and back
  pub message_value : ChannelMessageEnvelope R → Json
  pub event_value : EventEnvelope → Json
  pub events_of_value : Json → Result Str (List EventEnvelope)
  pub messages_of_value : Json → Result Str (List (ChannelMessageEnvelope R))
  pub event_of_value : Json → Result Str EventEnvelope
  -- `TenantCtx::new` of an environment's and a tenant's identifier, where these are valid
  pub new_tenant : Str → Str → Result Str TenantCtx

-- A member of a response.
abbrev pub member : Str → Str → Json → Result Str Json
member key message response = ok_or (get key response) message

module _ {W R : Type 0} (host : Host W R) where
  unfoldable pub env_command : Str → Io W Str
  unfolding is_blank
  env_command var w =
      let value = unwrap_or (host.env_var var w) [] in
      (if is_blank value then err (var ++ codes " must be set for live mode") else ok value, w)

  -- The match on how the command ended.
  abbrev read_output : Output → Result Str Json
  read_output output =
      if not output.success
      then err (
          codes "live command failed ("
          ++ (output.status ++ (codes "): " ++ host.from_utf8_lossy output.stderr)))
      else then_ok
          (map_err (λ _. codes "live command stdout not utf-8") (host.from_utf8 output.stdout))
          (λ stdout.
            map_err (λ _. codes "parse live command response json") (host.parse_json stdout))

  abbrev run_words : Str → List Str → Json → Io W Json
  run_words command [] payload = pure_io (err (codes "command is empty"))
  run_words command (exe ∷ args) payload = do
    output ←
        with_context (codes "run live command: " ++ command)
          (host.execute exe args (host.to_vec payload))
    pure_io (read_output output)

  unfoldable pub run_command_json : Str → Json → Io W Json
  unfolding split_whitespace
  run_command_json command payload = run_words command (split_whitespace command) payload

  abbrev ingest_payload : PackLoad → List EventProviderSpec → ChannelMessageEnvelope R → Json
  ingest_payload pack providers message = object (
      field (codes "op") (string (codes "ingest")) (
        field (codes "pack_id") (string pack.pack_id) (
          field (codes "provider") (string (source_name providers))
            (field (codes "message") (host.message_value message) end))))

  unfoldable pub command_ingest :
      Envelopes R → Str → PackLoad → List EventProviderSpec → Io W (List EventEnvelope)
  unfolding run_command_json source_name
  command_ingest x command pack providers = do
    message ← pure_io (fixture_message x pack)
    response ← run_command_json command (ingest_payload pack providers message)
    events ←
        pure_io (member (codes "events") (codes "live ingest response missing events") response)
    pure_io (map_err (λ _. codes "parse live ingest events") (host.events_of_value events))

  abbrev emit_payload : PackLoad → List EventProviderSpec → EventEnvelope → Json
  emit_payload pack providers event = object (
      field (codes "op") (string (codes "emit")) (
        field (codes "pack_id") (string pack.pack_id) (
          field (codes "provider") (string (sink_name providers))
            (field (codes "event") (host.event_value event) end))))

  unfoldable pub command_emit :
      Envelopes R → Str → PackLoad → List EventProviderSpec → Io W (List (ChannelMessageEnvelope R))
  unfolding run_command_json sink_name
  command_emit x command pack providers = do
    event ← pure_io (fixture_event x pack)
    response ← run_command_json command (emit_payload pack providers event)
    messages ←
        pure_io (member (codes "messages") (codes "live emit response missing messages") response)
    pure_io (map_err (λ _. codes "parse live emit messages") (host.messages_of_value messages))
