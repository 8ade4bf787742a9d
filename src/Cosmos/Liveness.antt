-- ===== src/Cosmos/Liveness.antt =====
-- No one but the admin can keep a signed release of the CosmWasm bridge from going through.
use kinet_std.Shared.{◌≡◌, false, some, bytes_eq}
use kinet_std.Cosmos.State.{Config, Inbound, Storage}
use kinet_std.Cosmos.Contract
use kinet_std.Cosmos.Admin.{SameRules}

-- A message of someone else than the admin.
abbrev pub IsStranger : Config → Contract.Call → Type 0
IsStranger c x = bytes_eq x.info.sender c.admin ≡ false

-- The configuration stands, under the same rules.
abbrev Stands : Config → Storage → Type 0
Stands c s = (d : Config) × (s.config ≡ some d) × SameRules c d
