-- ===== src/Tests/Making.antt =====
-- A client for a directory whose `supervise` is not reported as missing.
use go_runit.Common.{◌≡◌, inr, refl, false, [], ◌∷◌}
use go_runit.Service.{ServiceType}
use go_runit.Errors.{ok}
use go_runit.Client.Methods.{runit_family}
use go_runit.Client.Make.{
  Directory, default_client, checked_client, new_client_runit, new_client, supervised, IsReady,
  new_client-IsReady,
}

abbrev pub web_directory : Directory
web_directory = record {
  abs = inr ("etc" ∷ "web" ∷ []);
  base = "web";
  is_not_exist = λ path. false;
}

new_client_web :
    new_client web_directory ServiceType.runit
    ≡ ok (supervised runit_family (default_client ("etc" ∷ "web" ∷ [])))
unfolding new_client new_client_runit checked_client
new_client_web = refl

new_client-IsReady_example :
    IsReady web_directory ServiceType.runit runit_family (default_client ("etc" ∷ "web" ∷ []))
new_client-IsReady_example =
    new_client-IsReady web_directory ServiceType.runit runit_family
      (default_client ("etc" ∷ "web" ∷ [])) new_client_web
