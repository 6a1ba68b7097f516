-- ===== src/Examples/Cellulars.antt =====
-- A main switch that the user has turned off, beside a switch of its own for a feature.
use ios_sdk_develop.Prelude.{◌≡◌, refl, true, false, none, some, [], ◌∷◌, codes}
use ios_sdk_develop.Cellular.{
  Device, shared_manager, available_offline_identifier, main_identifier, init_with_default_key,
  network_access_available_for, cellular_access_allowed_for, set_allowed, allowed,
  allows_transfer_of_size, switch_with_identifier, CellularSwitch, register_switch,
  unregister_switch,
}
use ios_sdk_develop.Cellular.Main.{network_access_available_for-main}

abbrev main_off : Device
main_off = record {
  user_defaults = (codes "cellular-access:main", 0) ∷ [];
  allow_cellular = true;
  network_available = true;
  is_expensive = true;
}

abbrev main_switch : CellularSwitch
main_switch = init_with_default_key 1 main_identifier (some (codes "Allow cellular access")) true 0

abbrev offline_switch : CellularSwitch
offline_switch =
    init_with_default_key 2 available_offline_identifier (some (codes "Available Offline")) true 0

network_access_available_for-main_example :
    (network_access_available_for main_off
        (shared_manager 1 2)
        (some available_offline_identifier)
        5000
      ≡ (true, false))
    × (cellular_access_allowed_for main_off
          (shared_manager 1 2)
          (some available_offline_identifier)
          5000
        ≡ false)
unfolding shared_manager register_switch init_with_default_key switch_with_identifier
    allows_transfer_of_size allowed
network_access_available_for-main_example =
    network_access_available_for-main main_off (shared_manager 1 2) available_offline_identifier
      offline_switch main_switch 5000 refl refl refl refl refl refl

-- A switch that is turned on by the user is written to the user defaults, over what was there.
turned_on : allowed (set_allowed true main_switch main_off).1 main_switch ≡ true
unfolding allowed set_allowed init_with_default_key
turned_on = refl

unregistered :
    switch_with_identifier
      (unregister_switch offline_switch (shared_manager 1 2))
      available_offline_identifier
    ≡ none
unfolding unregister_switch shared_manager register_switch init_with_default_key
    switch_with_identifier
unregistered = refl
