-- ===== src/Mesh/Sessions/Samples.antt =====
-- A table with two waiting requests.
use netpulse_monitor.Base.{ℕ, [], ◌∷◌}
use netpulse_monitor.Text.{text_of, same}
use netpulse_monitor.Dict.{lookup, insert, remove}
use netpulse_monitor.Mesh.Sessions.{pending, SessionTable, register_single, set_object}

program : Unit {0}
unfolding lookup insert remove same register_single set_object
program = tt

abbrev waiting : SessionTable ℕ
waiting = record {
  objects = λ i. pending;
  next = 2;
  table = (text_of "a", 0) ∷ (text_of "b", 1) ∷ [];
  meta =
      (text_of "a", record { service = text_of "files"; method = text_of "get" })
      ∷ (text_of "b", record { service = text_of "demo"; method = text_of "get" })
      ∷ [];
}
