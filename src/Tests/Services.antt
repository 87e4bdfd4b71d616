-- ===== src/Tests/Services.antt =====
-- The services at concrete inputs.
use mgds.Prelude.{Dict, Text, [], lit, nat_eq, text_eq, ◌++◌, ◌∷◌}
use mgds.Services.Recovery.{ProcessRecord, register}
use mgds.Services.Negotiation.{Identifier, Registry}
use mgds.Services.Broker.{Broker}
use mgds.Services.Evaluation.{Item}
use mgds.Tests.Toy.{toy}

abbrev registered : Dict Text ProcessRecord
registered =
    register (lit "p2") (lit "player") (lit "t1") (register (lit "p1") (lit "editor") (lit "t0") [])

abbrev requested : Identifier
requested = record { base = lit "mgds.unity.build"; major = 0; minor = 2; patch = 1 }

abbrev advertised : Identifier
advertised = record { base = lit "mgds.unity.build"; major = 0; minor = 2; patch = 4 }

abbrev known : Registry
known =
    (lit "mgds.unity.build", (lit "0.2.1", lit "deprecated") ∷ (lit "0.2.4", lit "current") ∷ [])
    ∷ []

abbrev broker : Broker
broker = record { destinations = lit "registry" ∷ []; secrets = [] }

abbrev item : Item
item = record {
  authority = lit "evaluator";
  bytes = lit "log";
  hash = lit "sha256:" ++ toy (lit "log");
}
