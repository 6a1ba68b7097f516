-- ===== src/Cellular.antt =====
-- ownCloudSDK/Cellular/OCCellularSwitch.h and .m, OCCellularManager.h and .m: switches that say what may be
-- sent over a cellular network. The user defaults, the policy of connections and the network monitor are
-- fields of Device; notifications are not modelled.
pub mod Main
use ios_sdk_develop.Prelude.{
  ℕ, Bool, true, false, not, ◌&&◌, ◌||◌, Option, none, some, List, [], ◌∷◌, ◌++◌, ◌==◌, ltb, keep,
  if◌then◌else◌, Text, codes, text_eq, lookup, with_key, without_key,
}

-- `OCCellularSwitch`; identity is the address.
pub record CellularSwitch : Type 0 where
  pub address : ℕ
  pub identifier : Text
  pub localized_name : Option Text
  pub prefs_key : Option Text
  pub stored_allowed : Bool
  pub stored_maximum_transfer_size : ℕ

-- What the switches read: the user defaults by their keys, a flag being 0 or another number.
pub record Device : Type 0 where
  pub user_defaults : List (Text × ℕ)
  pub allow_cellular : Bool
  pub network_available : Bool
  pub is_expensive : Bool

unfoldable pub init_with_identifier :
    ℕ → Text → Option Text → Option Text → Bool → ℕ → CellularSwitch
init_with_identifier address identifier name key default_allowed size = record {
  address = address;
  identifier = identifier;
  localized_name = name;
  prefs_key = key;
  stored_allowed = default_allowed;
  stored_maximum_transfer_size = size;
}

-- The initialiser that makes the key from the identifier.
unfoldable pub init_with_default_key : ℕ → Text → Option Text → Bool → ℕ → CellularSwitch
unfolding init_with_identifier
init_with_default_key address identifier name default_allowed size =
    init_with_identifier address identifier name (some (codes "cellular-access:" ++ identifier))
      default_allowed size

abbrev pub read_default : Device → Option Text → Text → Option ℕ
read_default d none suffix = none
read_default d (some key) suffix = lookup text_eq (key ++ suffix) d.user_defaults

abbrev pub flag_or : Option ℕ → Bool → Bool
flag_or none stored = stored
flag_or (some n) stored = not (n == 0)

abbrev pub number_or : Option ℕ → ℕ → ℕ
number_or none stored = stored
number_or (some n) stored = n

abbrev pub no_suffix : Text
no_suffix = []

abbrev pub size_suffix : Text
size_suffix = codes ":max-size"

unfoldable pub allowed : Device → CellularSwitch → Bool
allowed d s = flag_or (read_default d s.prefs_key no_suffix) s.stored_allowed

unfoldable pub maximum_transfer_size : Device → CellularSwitch → ℕ
maximum_transfer_size d s =
    number_or (read_default d s.prefs_key size_suffix) s.stored_maximum_transfer_size

abbrev pub write_default : Option Text → Text → ℕ → Device → Device
write_default none suffix n d = d
write_default (some key) suffix n d = record d {
  user_defaults = with_key text_eq (key ++ suffix) n d.user_defaults;
}

abbrev pub flag_value : Bool → ℕ
flag_value true = 1
flag_value false = 0

unfoldable pub set_allowed : Bool → CellularSwitch → Device → CellularSwitch × Device
set_allowed b s d =
    (record s { stored_allowed = b }, write_default s.prefs_key no_suffix (flag_value b) d)

unfoldable pub set_maximum_transfer_size : ℕ → CellularSwitch → Device → CellularSwitch × Device
set_maximum_transfer_size n s d =
    (record s { stored_maximum_transfer_size = n }, write_default s.prefs_key size_suffix n d)

unfoldable pub allows_transfer_of_size : Device → ℕ → CellularSwitch → Bool
unfolding allowed maximum_transfer_size
allows_transfer_of_size d size s =
    (allowed d s && d.allow_cellular)
    && (maximum_transfer_size d s == 0 || ltb size (maximum_transfer_size d s))

-- `OCCellularManager`.
pub record CellularManager : Type 0 where
  pub switches : List CellularSwitch
  pub switches_by_identifier : List (Text × CellularSwitch)

unfoldable pub register_switch : CellularSwitch → CellularManager → CellularManager
register_switch s m = record {
  switches = m.switches ++ (s ∷ []);
  switches_by_identifier = with_key text_eq s.identifier s m.switches_by_identifier;
}

unfoldable pub unregister_switch : CellularSwitch → CellularManager → CellularManager
unregister_switch s m = record {
  switches = keep (λ t. not (t.address == s.address)) m.switches;
  switches_by_identifier = without_key text_eq s.identifier m.switches_by_identifier;
}

abbrev pub main_identifier : Text
main_identifier = codes "main"

abbrev pub available_offline_identifier : Text
available_offline_identifier = codes "available-offline"

-- The manager that all share, with the addresses of its switches.
unfoldable pub shared_manager : ℕ → ℕ → CellularManager
unfolding register_switch init_with_default_key
shared_manager main offline =
    let all_access = codes "Allow cellular access" in
    let offline_name = codes "Available Offline" in
    register_switch
      (init_with_default_key offline available_offline_identifier (some offline_name) true 0)
      (register_switch (init_with_default_key main main_identifier (some all_access) true 0)
        (record { switches = []; switches_by_identifier = [] }))

unfoldable pub switch_with_identifier : CellularManager → Text → Option CellularSwitch
switch_with_identifier m identifier = lookup text_eq identifier m.switches_by_identifier

-- A message to nil answers NO.
abbrev pub switch_allows : Device → ℕ → Option CellularSwitch → Bool
switch_allows d size none = false
switch_allows d size (some s) = allows_transfer_of_size d size s

unfoldable pub cellular_access_allowed_for : Device → CellularManager → Option Text → ℕ → Bool
unfolding switch_with_identifier
cellular_access_allowed_for d m none size =
    switch_allows d size (switch_with_identifier m main_identifier)
cellular_access_allowed_for d m (some identifier) size =
    switch_allows d size (switch_with_identifier m main_identifier)
    && switch_allows d size (switch_with_identifier m identifier)

abbrev pub or_main : Option CellularSwitch → Option CellularSwitch → Option CellularSwitch
or_main none main = main
or_main (some s) main = some s

abbrev pub optional_switch : CellularManager → Option Text → Option CellularSwitch
optional_switch m none = none
optional_switch m (some identifier) = switch_with_identifier m identifier

abbrev pub chosen_switch : CellularManager → Option Text → Option CellularSwitch
chosen_switch m identifier =
    or_main (optional_switch m identifier) (optional_switch m (some main_identifier))

-- `networkAccessAvailableFor:transferSize:onWifiOnly:`: whether, and whether only without cellular.
unfoldable pub network_access_available_for :
    Device → CellularManager → Option Text → ℕ → Bool × Bool
network_access_available_for d m identifier size =
    let over_cellular = switch_allows d size (chosen_switch m identifier) in
    (d.network_available && (over_cellular || not d.is_expensive), not over_cellular)
