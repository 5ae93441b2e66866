-- ===== src/Tests/Registration.antt =====
-- A registry with two adapters, each given by its metadata.
use cadrig.Base.{◌≡◌, ◌⊎◌, none, some, [], ◌∷◌, ok, err, key_error}
use cadrig.Base.Dict.{Dict}
use cadrig.Contracts.{AdapterMetadata, add_box}
use cadrig.Memory.{metadata}
use cadrig.Registry.{
  register, get_adapter, capabilities, Built, empty, grown, capabilities-get_adapter,
}
use cadrig.Agent.{find_adapter}

abbrev itself : AdapterMetadata → AdapterMetadata
itself m = m

abbrev other : AdapterMetadata
other = record { adapter_id = "freecad"; supported_actions = add_box ∷ [] }

abbrev two_adapters : Dict AdapterMetadata
two_adapters = (register itself (register itself [] (some metadata)).1 (some other)).1

two_adapters-Built : Built itself two_adapters
two_adapters-Built =
    grown (register itself [] (some metadata)).1 (some other) (grown [] (some metadata) empty)

capabilities-get_adapter_example :
    ((a : AdapterMetadata) × (get_adapter itself two_adapters "memory" ≡ ok a)
      × (find_adapter "memory" (capabilities itself two_adapters) ≡ some a))
    ⊎ ((get_adapter itself two_adapters "memory" ≡ err (key_error "memory"))
        × (find_adapter "memory" (capabilities itself two_adapters) ≡ none))
capabilities-get_adapter_example =
    capabilities-get_adapter itself two_adapters "memory" two_adapters-Built
