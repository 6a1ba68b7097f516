-- ===== src/Cellular/Main.antt =====
-- What the main switch is asked for.
use ios_sdk_develop.Prelude.{ℕ, ◌≡◌, refl, ap, Bool, true, false, not, ◌&&◌, ◌||◌, some, Text}
use ios_sdk_develop.Cellular.{
  CellularSwitch, Device, CellularManager, main_identifier, switch_allows, allows_transfer_of_size,
  allowed, switch_with_identifier, cellular_access_allowed_for, network_access_available_for,
}

access_by :
    (available expensive over : Bool)
    → available ≡ true
    → expensive ≡ true
    → over ≡ true
    → ◌≡◌ {A = Bool × Bool} (available && (over || not expensive), not over) (true, false)
access_by true true true h k l = refl
access_by true true false h k l = cc
access_by true false over h k l = cc
access_by false expensive over h k l = cc

allows_transfer_of_size-refused :
    (d : Device) (s : CellularSwitch) (size : ℕ)
    → allowed d s ≡ false
    → allows_transfer_of_size d size s ≡ false
unfolding allows_transfer_of_size
allows_transfer_of_size-refused d s size h = rw h refl

-- Where the network is available but expensive: a request with a switch of its own that allows the transfer
-- has access over a cellular network, also where the main switch does not allow it, so that cellular access
-- is not allowed.
pub network_access_available_for-main :
    (d : Device) (m : CellularManager) (identifier : Text) (own main : CellularSwitch) (size : ℕ)
    → switch_with_identifier m identifier ≡ some own
    → switch_with_identifier m main_identifier ≡ some main
    → allows_transfer_of_size d size own ≡ true
    → allowed d main ≡ false
    → d.network_available ≡ true
    → d.is_expensive ≡ true
    → (network_access_available_for d m (some identifier) size ≡ (true, false))
      × (cellular_access_allowed_for d m (some identifier) size ≡ false)
unfolding network_access_available_for cellular_access_allowed_for
network_access_available_for-main d m identifier own main size o p q r a x = (
  rw o (access_by d.network_available d.is_expensive (allows_transfer_of_size d size own) a x q),
  rw p (
      ap (λ b. b && switch_allows d size (switch_with_identifier m identifier))
        (allows_transfer_of_size-refused d main size r)),
)
