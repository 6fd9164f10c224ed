-- ===== src/Accounts/Icons.antt =====
-- set_icon_new of src/Authorizer.hpp: a file of ./icons for each id. `opens` tells whether the
-- std::ofstream could be opened.
use unopp_server.Accounts.Users.{Result, success, set_icon_failed}
use unopp_server.Prelude.{ℕ, Bool, List, Option, some, if◌then◌else◌, ◌==◌}

abbrev pub Icons : Type 0
Icons = ℕ → Option (List ℕ)

unfoldable pub set_icon_new : Bool → ℕ → List ℕ → Icons → Result × Icons
set_icon_new opens id content icons =
    if opens
    then (success, λ x. if id == x then some content else icons x)
    else (set_icon_failed, icons)
