-- ===== src/Utils/Tests.antt =====
-- A request that came through two proxies.
use synapse_go.Base.{
  ◌≡◌, refl, some, List, [], ◌∷◌, ◌++◌, if◌then◌else◌, All, nat_eq, list_beq, Text, text_eq, codes,
  is_space, trim_left, trim_right, trim, trim_space,
}
use synapse_go.Utils.{
  fold_rune, is_unknown, before_comma, has_comma, parse_client_ip, client_ip_headers, probe,
  host_or, or_remote, get_client_ip,
}
use synapse_go.Utils.Client.{IsAddress, IsFirstItem, probe_first}

abbrev forwarded : Text → Text
forwarded h =
    if list_beq h (codes "X-Real-IP") then codes " 10.0.0.9 , 10.0.0.1" else codes "unknown"

program : Unit {0}
unfolding probe parse_client_ip before_comma has_comma is_unknown fold_rune trim trim_left
    trim_right is_space list_beq
program = tt

probe_first_example :
    IsAddress (codes "10.0.0.9")
    × ((before : List Text) × (h : Text) × (after_it : List Text) × (client_ip_headers
          ≡ before ++ h ∷ after_it)
        × All (λ j. parse_client_ip (forwarded j) ≡ []) before
        × ((item : Text) × IsFirstItem item (trim_space (forwarded h))
            × (trim_space item ≡ codes "10.0.0.9")))
unfolding program
probe_first_example = probe_first forwarded client_ip_headers (codes "10.0.0.9") refl

remote :
    get_client_ip (λ a. some (codes "192.0.2.1")) (some (λ h. [], codes "192.0.2.1:80"))
    ≡ codes "192.0.2.1"
unfolding program get_client_ip or_remote host_or
remote = refl
