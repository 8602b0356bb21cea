-- ===== src/Settings/Reads.antt =====
-- Reads of the settings (apps/api/src/settings/settings.service.ts) change nothing.
use tenzopay.Base.{String, Option, none, some, ◌≡◌, refl}
use tenzopay.Effects.{Thrown}
use tenzopay.Queries.{read-P, with_result-P}
use tenzopay.Settings.Registry.{Office, SettingDefinition, registry}
use tenzopay.Settings.Service.{get, get_defined, find_definition, find_value, parsed}

defined_same :
    (fault : Option Thrown) (key : String) (o : Office) (d : Option SettingDefinition)
    → (get_defined fault key d o).1 ≡ o
defined_same fault key o none = refl
defined_same fault key o (some d) =
    read-P (λ r. r.1 ≡ o) o fault _ _ (λ e. refl)
      (with_result-P (λ r. r.1 ≡ o) o (parsed d (find_value key o.settings)) _ (λ e. refl)
        (λ n h. refl))

-- A read of a setting leaves the tables as they are.
pub get_same : (fault : Option Thrown) (key : String) (o : Office) → (get fault key o).1 ≡ o
unfolding get
get_same fault key o = defined_same fault key o (find_definition key registry)
