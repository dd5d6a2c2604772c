-- ===== src/Engine/Transitions.antt =====
-- crates/chronicle-engine/src/duration.rs: the transitions between applications, with
-- `event_context` of coverage.rs.
pub mod Chain
use open_chronicle_next.Base.{
  String, Bool, true, false, Option, none, some, List, [], ◌∷◌, retain, str_eq, if◌then◌else◌,
}
use open_chronicle_next.Base.Sort.{sort_by}
use open_chronicle_next.Domain.Event.{
  EventEnvelope, ObservationContent, PermittedWindowContext, observation_attempt,
}
use open_chronicle_next.Domain.Chunk.{Transition}
use open_chronicle_next.Engine.Coverage.Seconds.{event_order}

abbrev pub content_context : ObservationContent → Option PermittedWindowContext
content_context (ObservationContent.captured c) = some c.context
content_context (ObservationContent.unchanged c) = some c.context
content_context (ObservationContent.protected c) = none
content_context (ObservationContent.no_evidence r) = none

unfoldable pub event_context : EventEnvelope → Option PermittedWindowContext
event_context e = elim e.payload [ observation_attempt a ↦ content_context a.content | _ ↦ none ]

-- The filter of `application_transitions`.
abbrev pub is_observed : EventEnvelope → Bool
is_observed e = elim e.payload [
  | observation_attempt a ↦ elim a.content [
    | ObservationContent.captured c ↦ true
    | ObservationContent.unchanged c ↦ true
    | _ ↦ false
  ]
  | _ ↦ false
]

abbrev pub transition : EventEnvelope → String → String → Transition
transition e prior key = record {
  at = e.observed_at;
  from_key = some prior;
  to_key = key;
  supporting_event_id = e.event_id;
}

-- The loop over the observations, from the application that was seen last.
unfoldable pub transitions_from : Option String → List EventEnvelope → List Transition
transitions_from prior [] = []
transitions_from prior (e ∷ es) = elim (event_context e) [
  | none ↦ transitions_from prior es
  | some c ↦
      let rest = transitions_from (some c.application_bundle_id) es in
      elim prior [
        | none ↦ rest
        | some key ↦
            if str_eq key c.application_bundle_id
            then rest
            else transition e key c.application_bundle_id ∷ rest
      ]
]

unfoldable pub application_transitions : List EventEnvelope → List Transition
unfolding transitions_from
application_transitions es = transitions_from none (sort_by event_order (retain is_observed es))
