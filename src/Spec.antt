-- ===== src/Spec.antt =====
-- What the bridge contracts promise to one another, as interfaces over any contract: an inbound
-- transfer goes through at most once (`Replay`, `Spending`), outbound nonces never repeat
-- (`Outbound`), a daily limit (`Quota`, `Allowance`, `Metered`), orders between two bridges
-- (`Transit`, `Settlement`), and what the calls of a run answer, with a part of the state or without (`Answers`, `Erasure`).
pub mod Replay
pub mod Outbound
pub mod Quota
pub mod Allowance
pub mod Metered
pub mod Run
pub mod Transit
pub mod Settlement
pub mod Spending
pub mod Answers
pub mod Erasure
