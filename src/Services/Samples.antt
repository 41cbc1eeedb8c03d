-- ===== src/Services/Samples.antt =====
-- A service that is loaded anew with one generator less. Methods are numbers.
use netpulse_monitor.Base.{ℕ, ◌≡◌, refl, false, none, some, [], ◌∷◌}
use netpulse_monitor.Text.{text_of, same}
use netpulse_monitor.Dict.{lookup, insert, keys}
use netpulse_monitor.Dict.Distinct.{Distinct}
use netpulse_monitor.Services.{
  ServiceTable, ServiceObject, set_entry, get_entry, set_generators, register_service,
  register_method, get_service, get_method, get_generator, list_generators, generator_names,
  without_prefix, replace_service,
}
use netpulse_monitor.Services.Replaced.{replace_service-current}

program : Unit {0}
unfolding same lookup insert set_entry get_entry set_generators register_service register_method
    get_service get_method get_generator list_generators generator_names without_prefix
    replace_service
program = tt

abbrev before : ServiceObject ℕ
before = record {
  name = text_of "files";
  itself = 1;
  generators = (text_of "walk", 2) ∷ (text_of "read", 3) ∷ [];
}

abbrev now : ServiceObject ℕ
now = record { name = text_of "files"; itself = 4; generators = (text_of "walk", 5) ∷ [] }

abbrev table : ServiceTable ℕ
table = register_method before (text_of "find") 6 (register_service before [])

get_method_before : get_method (text_of "files") (text_of "find") table ≡ some 6
unfolding program
get_method_before = refl

now-Distinct : Distinct now.generators
unfolding program
now-Distinct = (refl, tt)

find_is_method :
    (same (text_of "self") (text_of "find") ≡ false)
    × (without_prefix (text_of "__gen__") (text_of "find") ≡ none)
unfolding program
find_is_method = (refl, refl)

replace_service-current_example :
    let t = replace_service now table in
    (get_service (text_of "files") t ≡ some 4)
    × (get_generator (text_of "files") (text_of "read") t ≡ lookup (text_of "read") now.generators)
    × (list_generators (text_of "files") t ≡ keys now.generators)
    × (get_method (text_of "files") (text_of "find") t ≡ none)
replace_service-current_example =
    replace_service-current now table (text_of "read") (text_of "find") now-Distinct
      find_is_method.0 find_is_method.1
