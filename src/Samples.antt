-- ===== src/Samples.antt =====
-- Concrete instances of what the program takes from its libraries and servers, for the tests.
use bare_metal_operator.Prelude.{
  String, Bool, true, false, not, ◌||◌, Option, none, some, List, [], ◌∷◌, ◌++◌, ◌≡◌, refl, arith,
  ◌==◌, eq_iff, contains, if◌then◌else◌,
}
use bare_metal_operator.Prelude.Int.{pos}
use bare_metal_operator.Shared.{done}
use bare_metal_operator.Kube.{Condition, Kube, IsLawful}
use bare_metal_operator.Profile.{Profile, Formats}
use bare_metal_operator.Provisioning.{returns, Provisioning}
use bare_metal_operator.Shared.{ok}

-- apimeta.SetStatusCondition and FindStatusCondition, on conditions without a transition time.
unfoldable pub set_in : List Condition → Condition → List Condition
set_in [] c = c ∷ []
set_in (d ∷ ds) c = if d.kind == c.kind then c ∷ ds else d ∷ set_in ds c

unfoldable pub find_in : List Condition → String → Option Condition
find_in [] kind = none
find_in (d ∷ ds) kind = if d.kind == kind then some d else find_in ds kind

unfoldable pub without : List String → String → List String
without [] f = []
without (g ∷ fs) f = let rest = without fs f in if g == f then rest else g ∷ rest

abbrev add_to : List String → String → Bool × List String
add_to fs f = (not (contains fs f), if contains fs f then fs else fs ++ f ∷ [])

abbrev pub kube : Kube
kube = record {
  set_condition = set_in;
  find_condition = find_in;
  contains_finalizer = contains;
  add_finalizer = add_to;
  remove_finalizer = λ fs f. (contains fs f, without fs f);
  contains_text = λ text part. text == part;
}

find_in-set_in :
    (cs : List Condition) (c : Condition) (kind : String)
    → find_in (set_in cs c) kind ≡ (if c.kind == kind then some c else find_in cs kind)
unfolding find_in set_in
find_in-set_in [] c kind = refl
find_in-set_in (d ∷ ds) c kind =
    ground (
      arith,
      eq_iff d.kind c.kind,
      eq_iff d.kind kind,
      eq_iff c.kind kind,
      find_in-set_in ds c kind,
    )

contains-snoc :
    (fs : List String) (f g : String) → contains (fs ++ f ∷ []) g ≡ (contains fs g || f == g)
contains-snoc [] f g = ground arith
contains-snoc (x ∷ fs) f g = ground (arith, contains-snoc fs f g)

contains-without :
    (fs : List String) (f g : String)
    → contains (without fs f) g ≡ (if f == g then false else contains fs g)
unfolding without
contains-without [] f g = ground arith
contains-without (x ∷ fs) f g =
    ground (arith, eq_iff x f, eq_iff x g, eq_iff f g, contains-without fs f g)

pub kube-IsLawful : IsLawful kube
kube-IsLawful = record {
  find-set = find_in-set_in;
  add_finalizer_lem = λ fs f g. (ground arith, ground (arith, contains-snoc fs f g, eq_iff f g));
  remove_finalizer_lem = λ fs f g. (refl, contains-without fs f g);
}

abbrev pub formats : Formats
formats = record {
  is_qualified_name = λ key. not (key == "");
  is_valid_label_value = λ value. true;
  unmarshal = λ text. if text == "image: rhel" then some (("image", "rhel") ∷ []) else none;
}

abbrev pub profile : Profile
profile = record {
  name = "rhel";
  host_selector = [];
  expected_template_parameters = "image" ∷ [];
  optional_template_parameters = [];
  bare_metal_pool_template = "setup";
  host_template = "install";
  labels = ("os", "rhel") ∷ [];
  persistent_labels = [];
}

-- A provisioning library whose jobs are done at once.
abbrev pub provisioning : {W O V : Type 0} → Provisioning W O V
provisioning = record {
  compute_desired_config_version = λ v. ok "v1";
  run_provisioning_lifecycle = λ o jobs version n interval. returns done none;
  run_deprovisioning_lifecycle =
      λ o jobs n interval w. (record { jobs = jobs; result = done; done = true; error = none }, w);
  check_non_terminal_provision_job = λ o w. (false, w);
  default_max_job_history = 10;
  default_status_poll_interval = pos 30000000000;
}
