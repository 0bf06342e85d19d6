-- ===== src/Rorc/BarAccessor/Tests.antt =====
-- The theorem on the data generator for a card that takes every access.
use flp_prototype.Base.{false}
use flp_prototype.Rorc.Bar.{Card}

abbrev card : Card
card = record { index = 0; answers = λ log register. 0xff; refuses = λ log a. false }
