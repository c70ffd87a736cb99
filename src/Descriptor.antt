-- ===== src/Descriptor.antt =====
-- src/provider.rs: descriptors, and how they are made from a pack's provider specification.
-- The specification (crate greentic-pack) and the descriptor (crate greentic-types) have the fields
-- and constructors that the code names.
use greentic_events.Base.{Option, none, List, [], ◌∷◌, if◌then◌else◌, map_option, unwrap_or}
use greentic_events.Base.Str.{Str, codes, str_eq, to_ascii_lowercase}

pub data EventProviderKind : Type 0 where
  broker source sink bridge : EventProviderKind

pub data TransportKind : Type 0 where
  nats kafka sqs webhook email : TransportKind
  other : Str → TransportKind

pub data ReliabilityKind : Type 0 where
  at_most_once at_least_once effectively_once : ReliabilityKind

pub data OrderingKind : Type 0 where
  unordered per_key global : OrderingKind

pub record Capabilities : Type 0 where
  pub transport : Option TransportKind
  pub reliability : Option ReliabilityKind
  pub ordering : Option OrderingKind
  pub topics : List Str

pub record EventProviderSpec : Type 0 where
  pub name : Str
  pub kind : EventProviderKind
  pub capabilities : Capabilities

pub record EventProviderDescriptor : Type 0 where
  pub name : Str
  pub kind : EventProviderKind
  pub transport : TransportKind
  pub reliability : ReliabilityKind
  pub ordering : OrderingKind
  pub notes : Option Str
  pub tags : List Str

-- The two crates declare each of the kinds anew, with the same constructors: the matches of the code
-- are these functions by clauses.
abbrev pub kind_to_types : EventProviderKind → EventProviderKind
kind_to_types broker = broker
kind_to_types source = source
kind_to_types sink = sink
kind_to_types bridge = bridge

-- `format!("{:?}", spec.kind)`
abbrev pub kind_debug : EventProviderKind → Str
kind_debug broker = codes "Broker"
kind_debug source = codes "Source"
kind_debug sink = codes "Sink"
kind_debug bridge = codes "Bridge"

-- The names that a free-form transport may use for a known one.
unfoldable pub named_transport : Str → TransportKind
unfolding str_eq
named_transport name =
    if str_eq name (codes "nats")
    then nats
    else if str_eq name (codes "kafka")
    then kafka
    else if str_eq name (codes "sqs")
    then sqs
    else if str_eq name (codes "webhook")
    then webhook
    else if str_eq name (codes "email")
    then email
    else other name

unfoldable pub cap_transport_to_types : TransportKind → TransportKind
unfolding named_transport to_ascii_lowercase
cap_transport_to_types nats = nats
cap_transport_to_types kafka = kafka
cap_transport_to_types sqs = sqs
cap_transport_to_types webhook = webhook
cap_transport_to_types email = email
cap_transport_to_types (other v) = named_transport (to_ascii_lowercase v)

unfoldable pub cap_reliability_to_types : ReliabilityKind → ReliabilityKind
cap_reliability_to_types at_most_once = at_most_once
cap_reliability_to_types at_least_once = at_least_once
cap_reliability_to_types effectively_once = effectively_once

unfoldable pub cap_ordering_to_types : OrderingKind → OrderingKind
cap_ordering_to_types unordered = unordered
cap_ordering_to_types per_key = per_key
cap_ordering_to_types global = global

unfoldable pub descriptor_from_spec : EventProviderSpec → EventProviderDescriptor
unfolding cap_transport_to_types cap_reliability_to_types cap_ordering_to_types
descriptor_from_spec spec = record {
  name = spec.name;
  kind = kind_to_types spec.kind;
  transport =
      unwrap_or (map_option cap_transport_to_types spec.capabilities.transport)
        (other (codes "unspecified"));
  reliability =
      unwrap_or (map_option cap_reliability_to_types spec.capabilities.reliability) at_most_once;
  ordering = unwrap_or (map_option cap_ordering_to_types spec.capabilities.ordering) unordered;
  notes = none;
  tags = kind_debug spec.kind ∷ [];
}
